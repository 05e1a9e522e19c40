-- ===== src/Pdo/Total.antt =====
-- When `registerPDOEntries` of src/master/igh/ethercat_servo.cpp succeeds.
use robot_ethercat_master_ig.Prelude.{
  ℕ, ◌<◌, ◌≡◌, refl, sym, subst, ap, ◌∙◌, Bool, true, false, Option, some, List, [], ◌∷◌, arith,
  Bool-cases, inl, inr,
}
use robot_ethercat_master_ig.Profiles.{MotorConfig, PdoLayout}
use robot_ethercat_master_ig.Profiles.Resolve.{is_gateway}
use robot_ethercat_master_ig.Axis.{is_non_motion_slave}
use robot_ethercat_master_ig.Servo.Startup.{verify_pdo_evidence}
use robot_ethercat_master_ig.Pdo.{SyncInfo, Direction, is_sjd17}
use robot_ethercat_master_ig.Pdo.Gateway.{gateway_syncs}
use robot_ethercat_master_ig.Pdo.Configure.{
  slave_syncs, joint_syncs, jmdt_syncs, sri_syncs, is_sri_m8126_f32,
}
use robot_ethercat_master_ig.Pdo.Offsets.{
  PdoOffsets, no_offsets, drive_start, sri_start, pdo_offset_unset, registered_of,
}
use robot_ethercat_master_ig.Pdo.Register.{
  Request, Plan, register_list, joint_plan, jmdt_plan, sri_plan, gateway_plan, register_optional,
  register_gateway, with_evidence, register_slave,
}
use robot_ethercat_master_ig.Pdo.Offers.{
  offers, offers_all, joint_offers, jmdt_offers, sri_offers, gateway_offers,
}
use robot_ethercat_master_ig.Pdo.Mapped.{IsConsistent}
use robot_ethercat_master_ig.Pdo.Answers.{
  DriveRegistered, register_list-Ran, jmdt-Registered, joint-Registered,
}

-- The library has a place in the process image for all that a table offers.
abbrev pub Grants : List SyncInfo → (Request → Option ℕ) → Type 0
Grants table f =
    (r : Request) → offers table r ≡ true → (o : ℕ) × (f r ≡ some o) × (o < pdo_offset_unset)

register_list-total :
    (table : List SyncInfo) (f : Request → Option ℕ)
    → Grants table f
    → (plan : Plan) (off : PdoOffsets) → offers_all table plan ≡ true
    → (end : PdoOffsets) × (register_list f plan off ≡ some end)
unfolding register_list offers_all
register_list-total table f grants [] off h = (off, refl)
register_list-total table f grants ((r, put) ∷ rest) off h =
    let (o, given, _) = grants r (ground (arith, h)) in
    let (end, e) = register_list-total table f grants rest (put o off) (ground (arith, h)) in
    (end, rw (given, register_list) e)

below :
    (f : Request → Option ℕ) (r : Request) (o n : ℕ)
    → f r ≡ some o
    → f r ≡ some n
    → n < pdo_offset_unset
    → o < pdo_offset_unset
below f r o n p q h = ground (arith, p, q, h)

drive-evidence :
    (table : List SyncInfo) (f : Request → Option ℕ) (cfg : MotorConfig) (off : PdoOffsets)
    → Grants table f
    → offers table (Request.entry_at 0x6041 0 Direction.input) ≡ true
    → offers table (Request.entry_at 0x6064 0 Direction.input) ≡ true
    → offers table (Request.entry_at 0x607A 0 Direction.output) ≡ true
    → DriveRegistered f off
    → verify_pdo_evidence cfg (registered_of off) ≡ true
unfolding verify_pdo_evidence registered_of
drive-evidence table f cfg off grants p q r d =
    let (n, a, x) = grants (Request.entry_at 0x6041 0 Direction.input) p in
    let (m, b, y) = grants (Request.entry_at 0x6064 0 Direction.input) q in
    let (k, c, z) = grants (Request.entry_at 0x607A 0 Direction.output) r in
    let i =
      below f (Request.entry_at 0x6041 0 Direction.input) off.status_word n d.status_word a x in
    let j =
      below f (Request.entry_at 0x6064 0 Direction.input) off.actual_position m d.actual_position b
        y in
    let l =
      below f (Request.entry_at 0x607A 0 Direction.output) off.target_position k d.target_position c
        z in
    ground (arith, i, j, l)

with_evidence-total :
    (cfg : MotorConfig) (off : PdoOffsets)
    → verify_pdo_evidence cfg (registered_of off) ≡ true
    → with_evidence cfg (some off) ≡ some off
unfolding with_evidence
with_evidence-total cfg off h = ground (arith, h)

module _ (f : Request → Option ℕ) (cfg : MotorConfig) where
  -- A drive's plan, where the table offers it and it registers the drive's objects.
  drive-total :
      (table : List SyncInfo) (plan : Plan)
      → Grants table f
      → offers_all table plan ≡ true
      → offers table (Request.entry_at 0x6041 0 Direction.input) ≡ true
      → offers table (Request.entry_at 0x6064 0 Direction.input) ≡ true
      → offers table (Request.entry_at 0x607A 0 Direction.output) ≡ true
      → ((off : PdoOffsets) → register_list f plan drive_start ≡ some off → DriveRegistered f off)
      → (off : PdoOffsets) × (with_evidence cfg (register_list f plan drive_start) ≡ some off)
  drive-total table plan grants h p q r registers =
      let (off, e) = register_list-total table f grants plan drive_start h in
      let ok = drive-evidence table f cfg off grants p q r (registers off e) in
      (off, ap (with_evidence cfg) e ∙ with_evidence-total cfg off ok)

  joint-total :
      (sjd17 : Bool)
      → Grants (joint_syncs sjd17) f
      → (off : PdoOffsets) × (with_evidence cfg (register_list f (joint_plan sjd17) drive_start)
          ≡ some off)
  unfolding offers
  joint-total true grants =
      drive-total (joint_syncs true) (joint_plan true) grants (joint_offers true) refl refl refl
        (λ off e.
          joint-Registered true f off (register_list-Ran f (joint_plan true) drive_start off e))
  joint-total false grants =
      drive-total (joint_syncs false) (joint_plan false) grants (joint_offers false) refl refl refl
        (λ off e.
          joint-Registered false f off (register_list-Ran f (joint_plan false) drive_start off e))

  jmdt-total :
      Grants jmdt_syncs f
      → (off : PdoOffsets) × (with_evidence cfg (register_list f jmdt_plan drive_start) ≡ some off)
  unfolding offers
  jmdt-total grants =
      drive-total jmdt_syncs jmdt_plan grants jmdt_offers refl refl refl
        (λ off e. jmdt-Registered f off (register_list-Ran f jmdt_plan drive_start off e))

  sri-total :
      (use_float : Bool)
      → is_non_motion_slave cfg ≡ true
      → Grants (sri_syncs use_float) f
      → (off : PdoOffsets) × (with_evidence cfg (register_list f (sri_plan use_float) sri_start)
          ≡ some off)
  unfolding verify_pdo_evidence
  sri-total use_float still grants =
      let (off, e) =
        register_list-total (sri_syncs use_float) f grants (sri_plan use_float) sri_start
          (sri_offers use_float) in
      (off, ap (with_evidence cfg) e ∙ with_evidence-total cfg off (ground (arith, still)))

  gateway-total : Grants gateway_syncs f → (off : PdoOffsets) × (register_gateway f ≡ some off)
  unfolding register_gateway
  gateway-total grants =
      let (off, e) =
        register_list-total gateway_syncs f grants gateway_plan no_offsets gateway_offers.0 in
      (register_optional f off, rw (e, register_gateway) refl)

  -- The whole slave, by its layout.
  module _ (table : List SyncInfo) (use_float : Bool) (grants : Grants table f)
      (found : slave_syncs cfg ≡ some table) where
    gateway_case :
        is_gateway cfg ≡ true
        → cfg.pdo_layout ≡ PdoLayout.gateway
        → (off : PdoOffsets) × (register_slave f true use_float cfg ≡ some off)
    unfolding slave_syncs register_slave
    gateway_case gw layout =
        let e : gateway_syncs ≡ table = ground (arith, found, gw, layout) in
        let (off, k) = gateway-total (subst (λ t. Grants t f) (sym e) grants) in
        (off, ground (arith, gw, k))

    by_layout :
        (layout : PdoLayout)
        → cfg.pdo_layout ≡ layout
        → is_gateway cfg ≡ false
        → use_float ≡ is_sri_m8126_f32 cfg
        → (off : PdoOffsets) × (register_slave f true use_float cfg ≡ some off)
    unfolding slave_syncs register_slave is_non_motion_slave
    by_layout PdoLayout.joint_module l gw float =
        let e : joint_syncs (is_sjd17 cfg) ≡ table = ground (arith, found, gw, l) in
        let (off, k) = joint-total (is_sjd17 cfg) (subst (λ t. Grants t f) (sym e) grants) in
        (off, ground (arith, gw, l, k))
    by_layout PdoLayout.cooldrive_jmdt l gw float =
        let e : jmdt_syncs ≡ table = ground (arith, found, gw, l) in
        let (off, k) = jmdt-total (subst (λ t. Grants t f) (sym e) grants) in
        (off, ground (arith, gw, l, k))
    by_layout PdoLayout.sri_m8126 l gw float =
        let e : sri_syncs use_float ≡ table = ground (arith, found, gw, l, float) in
        let (off, k) =
          sri-total use_float (ground (arith, l)) (subst (λ t. Grants t f) (sym e) grants) in
        (off, ground (arith, gw, l, k))
    by_layout PdoLayout.gateway l gw float = absurd (ground (arith, found, l, gw))
    by_layout PdoLayout.unknown l gw float = absurd (ground (arith, found, l, gw))

    -- Where the library has a place, below the mark for none, for every object and gap that the table of
    -- a slave offers, the slave's registration succeeds; the slave has the gateway's layout where it has
    -- the gateway's identity, and as a force sensor the kind of number by which its table was chosen.
    pub register_slave-total :
        IsConsistent cfg
        → use_float ≡ is_sri_m8126_f32 cfg
        → (off : PdoOffsets) × (register_slave f true use_float cfg ≡ some off)
    register_slave-total consistent float = elim (Bool-cases (is_gateway cfg)) [
      | inl gw ↦ gateway_case gw (consistent gw)
      | inr drive ↦ by_layout cfg.pdo_layout refl drive float
    ]
