-- ===== src/Pdo/Mapped.antt =====
-- The two passes of src/master/igh/ethercat_servo.cpp over the slaves, `configurePDOMapping` and
-- `registerPDOEntries`, against one another.
use robot_ethercat_master_ig.Prelude.{
  ℕ, ◌≡◌, refl, sym, subst, ap, ◌∙◌, Bool, true, false, not, Option, none, some, List, [], ◌∷◌,
  arith, Bool-cases, inl, inr,
}
use robot_ethercat_master_ig.Profiles.{MotorConfig, PdoLayout}
use robot_ethercat_master_ig.Profiles.Resolve.{is_gateway}
use robot_ethercat_master_ig.Pdo.{SyncInfo, Direction, is_sjd17}
use robot_ethercat_master_ig.Pdo.Gateway.{gateway_syncs}
use robot_ethercat_master_ig.Pdo.Configure.{
  slave_syncs, joint_syncs, jmdt_syncs, sri_syncs, is_sri_m8126_f32,
}
use robot_ethercat_master_ig.Pdo.Offsets.{PdoOffsets, no_offsets, drive_start, sri_start}
use robot_ethercat_master_ig.Pdo.Register.{
  Request, Plan, register_list, joint_plan, jmdt_plan, sri_plan, gateway_plan, register_optional,
  register_gateway, with_evidence, register_slave,
}
use robot_ethercat_master_ig.Pdo.Offers.{
  offers, offers_all, joint_offers, jmdt_offers, sri_offers, gateway_offers,
}

-- Two libraries that answer alike what a table offers.
abbrev pub Alike : List SyncInfo → (Request → Option ℕ) → (Request → Option ℕ) → Type 0
Alike table f g = (r : Request) → offers table r ≡ true → f r ≡ g r

-- A step that waits for an answer.
module _ {A B : Type 0} where
  abbrev wait_for : Option A → (A → Option B) → Option B
  wait_for answer next = elim answer [ none ↦ none | some o ↦ next o ]

  wait_for-alike :
      (a b : Option A) (next next' : A → Option B)
      → a ≡ b
      → ((o : A) → next o ≡ next' o)
      → wait_for a next ≡ wait_for b next'
  wait_for-alike none b next next' e h = ap (λ x. wait_for x next') e
  wait_for-alike (some o) b next next' e h = h o ∙ ap (λ x. wait_for x next') e

module _ (table : List SyncInfo) (f g : Request → Option ℕ) (same : Alike table f g) where
  register_list-alike :
      (plan : Plan) (off : PdoOffsets)
      → offers_all table plan ≡ true
      → register_list f plan off ≡ register_list g plan off
  unfolding register_list offers_all
  register_list-alike [] off h = refl
  register_list-alike ((r, put) ∷ rest) off h =
      wait_for-alike (f r) (g r) (λ o. register_list f rest (put o off))
        (λ o. register_list g rest (put o off)) (same r (ground (arith, h)))
        (λ o. register_list-alike rest (put o off) (ground (arith, h)))

  register_optional-alike :
      (off : PdoOffsets)
      → offers table (Request.entry_at 0x2005 0x01 Direction.input) ≡ true
      → offers table (Request.entry_at 0x2005 0x02 Direction.input) ≡ true
      → register_optional f off ≡ register_optional g off
  unfolding register_optional
  register_optional-alike off h k = ground (
    arith,
    same (Request.entry_at 0x2005 0x01 Direction.input) h,
    same (Request.entry_at 0x2005 0x02 Direction.input) k,
  )

-- A slave with the gateway's identity has the gateway's layout.
abbrev pub IsConsistent : MotorConfig → Type 0
IsConsistent cfg = is_gateway cfg ≡ true → cfg.pdo_layout ≡ PdoLayout.gateway

module _ (f g : Request → Option ℕ) where
  gateway-Alike : Alike gateway_syncs f g → register_gateway f ≡ register_gateway g
  unfolding register_gateway
  gateway-Alike same =
      wait_for-alike (register_list f gateway_plan no_offsets)
        (register_list g gateway_plan no_offsets) (λ off. some (register_optional f off))
        (λ off. some (register_optional g off))
        (register_list-alike gateway_syncs f g same gateway_plan no_offsets gateway_offers.0)
        (λ off.
          ap some
            (register_optional-alike gateway_syncs f g same off gateway_offers.1 gateway_offers.2))

  module _ (cfg : MotorConfig) (configured : Bool) where
    gateway_case :
        (table : List SyncInfo) (use_float : Bool)
        → is_gateway cfg ≡ true
        → cfg.pdo_layout ≡ PdoLayout.gateway
        → slave_syncs cfg ≡ some table
        → Alike table f g
        → register_slave f configured use_float cfg ≡ register_slave g configured use_float cfg
    unfolding slave_syncs register_slave
    gateway_case table use_float gw layout found same =
        let e : gateway_syncs ≡ table = ground (arith, found, gw, layout) in
        let k = gateway-Alike (subst (λ t. Alike t f g) (sym e) same) in ground (arith, gw, k)

    sri_case :
        (table : List SyncInfo) (use_float : Bool)
        → is_gateway cfg ≡ false
        → cfg.pdo_layout ≡ PdoLayout.sri_m8126
        → use_float ≡ is_sri_m8126_f32 cfg
        → slave_syncs cfg ≡ some table
        → Alike table f g
        → register_slave f configured use_float cfg ≡ register_slave g configured use_float cfg
    unfolding slave_syncs register_slave
    sri_case table use_float gw layout float found same =
        let e : sri_syncs use_float ≡ table = ground (arith, found, gw, layout, float) in
        let k =
          register_list-alike (sri_syncs use_float) f g (subst (λ t. Alike t f g) (sym e) same)
            (sri_plan use_float) sri_start (sri_offers use_float) in
        let w = ap (with_evidence cfg) k in ground (arith, gw, layout, w)

    joint_case :
        (table : List SyncInfo) (use_float : Bool)
        → is_gateway cfg ≡ false
        → cfg.pdo_layout ≡ PdoLayout.joint_module
        → slave_syncs cfg ≡ some table
        → Alike table f g
        → register_slave f configured use_float cfg ≡ register_slave g configured use_float cfg
    unfolding slave_syncs register_slave
    joint_case table use_float gw layout found same =
        let e : joint_syncs (is_sjd17 cfg) ≡ table = ground (arith, found, gw, layout) in
        let alike = subst (λ t. Alike t f g) (sym e) same in
        let plan = joint_plan (is_sjd17 cfg) in
        let k =
          register_list-alike (joint_syncs (is_sjd17 cfg)) f g alike plan drive_start
            (joint_offers (is_sjd17 cfg)) in
        let w = ap (with_evidence cfg) k in ground (arith, gw, layout, w)

    jmdt_case :
        (table : List SyncInfo) (use_float : Bool)
        → is_gateway cfg ≡ false
        → cfg.pdo_layout ≡ PdoLayout.cooldrive_jmdt
        → slave_syncs cfg ≡ some table
        → Alike table f g
        → register_slave f configured use_float cfg ≡ register_slave g configured use_float cfg
    unfolding slave_syncs register_slave
    jmdt_case table use_float gw layout found same =
        let e : jmdt_syncs ≡ table = ground (arith, found, gw, layout) in
        let alike = subst (λ t. Alike t f g) (sym e) same in
        let k = register_list-alike jmdt_syncs f g alike jmdt_plan drive_start jmdt_offers in
        let w = ap (with_evidence cfg) k in ground (arith, gw, layout, w)

    by_layout :
        (layout : PdoLayout) (table : List SyncInfo) (use_float : Bool)
        → cfg.pdo_layout ≡ layout
        → is_gateway cfg ≡ false
        → use_float ≡ is_sri_m8126_f32 cfg
        → slave_syncs cfg ≡ some table
        → Alike table f g
        → register_slave f configured use_float cfg ≡ register_slave g configured use_float cfg
    unfolding slave_syncs
    by_layout PdoLayout.joint_module table use_float l gw float found same =
        joint_case table use_float gw l found same
    by_layout PdoLayout.cooldrive_jmdt table use_float l gw float found same =
        jmdt_case table use_float gw l found same
    by_layout PdoLayout.sri_m8126 table use_float l gw float found same =
        sri_case table use_float gw l float found same
    by_layout PdoLayout.gateway table use_float l gw float found same =
        absurd (ground (arith, found, l, gw))
    by_layout PdoLayout.unknown table use_float l gw float found same =
        absurd (ground (arith, found, l, gw))

    -- The registration asks a slave for nothing but what its table offers. Let a slave have a table, the
    -- gateway's layout where it has the gateway's identity, and as a force sensor the kind of number by
    -- which its table was chosen: then two libraries that answer alike the objects and gaps that the
    -- table offers register the slave alike.
    pub register_slave-Alike :
        (table : List SyncInfo) (use_float : Bool)
        → IsConsistent cfg
        → use_float ≡ is_sri_m8126_f32 cfg
        → slave_syncs cfg ≡ some table
        → Alike table f g
        → register_slave f configured use_float cfg ≡ register_slave g configured use_float cfg
    register_slave-Alike table use_float consistent float found same =
        elim (Bool-cases (is_gateway cfg)) [
          | inl gw ↦ gateway_case table use_float gw (consistent gw) found same
          | inr drive ↦ by_layout cfg.pdo_layout table use_float refl drive float found same
        ]

-- The objects of a force sensor that its other table has.
sri_refused :
    (use_f32 : Bool) (f : Request → Option ℕ)
    → ((r : Request) → offers (sri_syncs (not use_f32)) r ≡ false → f r ≡ none)
    → register_list f (sri_plan use_f32) sri_start ≡ none
unfolding register_list offers
sri_refused true f none_else =
    let refused = none_else (Request.entry_at 0x6030 1 Direction.input) refl in
    ground (arith, refused)
sri_refused false f none_else =
    let refused = none_else (Request.entry_at 0x6020 1 Direction.input) refl in
    ground (arith, refused)

-- A force sensor whose kind of number was taken from another identity than its table is refused: where
-- `sri_use_float_` disagrees with the identity that the table was chosen by, a library that answers
-- only what the table offers does not register it.
pub register_slave-mismatch :
    (f : Request → Option ℕ) (cfg : MotorConfig) (table : List SyncInfo)
    (configured use_float : Bool)
    → is_gateway cfg ≡ false
    → cfg.pdo_layout ≡ PdoLayout.sri_m8126
    → slave_syncs cfg ≡ some table
    → use_float ≡ not (is_sri_m8126_f32 cfg)
    → ((r : Request) → offers table r ≡ false → f r ≡ none)
    → register_slave f configured use_float cfg ≡ none
unfolding slave_syncs register_slave with_evidence
register_slave-mismatch f cfg table configured use_float drive layout found differs none_else =
    let e : sri_syncs (not use_float) ≡ table = ground (arith, found, drive, layout, differs) in
    let k =
      sri_refused use_float f
        (subst (λ t. (r : Request) → offers t r ≡ false → f r ≡ none) (sym e) none_else) in
    ground (arith, drive, layout, k)
