-- ===== src/Pdo/Offers.antt =====
-- What the tables of `configurePDOMapping` in src/master/igh/ethercat_servo.cpp offer to its `registerPDOEntries`.
use robot_ethercat_master_ig.Prelude.{
  ℕ, ◌≡◌, refl, Bool, true, false, ◌&&◌, ◌||◌, ◌==◌, Option, none, some, List, [], ◌∷◌, get_elem?,
}
use robot_ethercat_master_ig.Pdo.{Entry, PdoInfo, SyncInfo, Direction}
use robot_ethercat_master_ig.Pdo.Gateway.{gateway_syncs}
use robot_ethercat_master_ig.Pdo.Configure.{joint_syncs, jmdt_syncs, sri_syncs}
use robot_ethercat_master_ig.Pdo.Register.{
  Request, Plan, joint_plan, jmdt_plan, sri_plan, gateway_plan,
}

abbrev some_entry : ℕ → ℕ → List Entry → Bool
some_entry index subindex [] = false
some_entry index subindex (e ∷ es) =
    e.index == index && e.subindex == subindex || some_entry index subindex es

abbrev some_pdo : ℕ → ℕ → List PdoInfo → Bool
some_pdo index subindex [] = false
some_pdo index subindex (p ∷ ps) = some_entry index subindex p.entries || some_pdo index subindex ps

-- A gap of one byte.
abbrev is_gap : Option Entry → Bool
is_gap none = false
is_gap (some e) = e.index == 0 && e.bit_length == 8

abbrev gap_in : ℕ → Option PdoInfo → Bool
gap_in pos none = false
gap_in pos (some p) = is_gap (get_elem? p.entries pos)

-- Whether a table has what is asked for: the object, or a gap at the place.
unfoldable pub offers : List SyncInfo → Request → Bool
offers [] r = false
offers (s ∷ ss) (Request.entry_at index subindex d) =
    some_pdo index subindex s.pdos || offers ss (Request.entry_at index subindex d)
offers (s ∷ ss) (Request.entry_pos sync p pos d) =
    (s.index == sync && gap_in pos (get_elem? s.pdos p))
    || offers ss (Request.entry_pos sync p pos d)

unfoldable pub offers_all : List SyncInfo → Plan → Bool
unfolding offers
offers_all table [] = true
offers_all table ((r, put) ∷ rest) = offers table r && offers_all table rest

-- The tables offer all that is asked for.
pub joint_offers : (sjd17 : Bool) → offers_all (joint_syncs sjd17) (joint_plan sjd17) ≡ true
unfolding offers_all offers
joint_offers true = refl
joint_offers false = refl

pub jmdt_offers : offers_all jmdt_syncs jmdt_plan ≡ true
unfolding offers_all offers
jmdt_offers = refl

pub sri_offers : (use_float : Bool) → offers_all (sri_syncs use_float) (sri_plan use_float) ≡ true
unfolding offers_all offers
sri_offers true = refl
sri_offers false = refl

pub gateway_offers :
    (offers_all gateway_syncs gateway_plan ≡ true)
    × (offers gateway_syncs (Request.entry_at 0x2005 0x01 Direction.input) ≡ true)
    × (offers gateway_syncs (Request.entry_at 0x2005 0x02 Direction.input) ≡ true)
unfolding offers_all offers gateway_syncs gateway_plan
gateway_offers = (refl, refl, refl)
