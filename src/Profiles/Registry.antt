-- ===== src/Profiles/Registry.antt =====
-- The registry's two views of the known motors: the search by identity and the list of identities.
use robot_ethercat_master_ig.Prelude.{
  ℕ, ◌≡◌, refl, ◌∙◌, Bool, true, false, ◌||◌, Option, none, some, List, [], ◌∷◌, ◌++◌, arith,
  if_cases, Bool-cases, inl, inr,
}
use robot_ethercat_master_ig.Profiles.{
  SlaveIdentity, MotorProfile, identity_equal, lists, collect, collect_all, find_identity,
}
use robot_ethercat_master_ig.Profiles.Table.{k_profiles, find_by_identity, all_motor_identities}
use robot_ethercat_master_ig.Kinematics.{Doubles}

-- No identity is there twice.
abbrev pub Distinct : List SlaveIdentity → Type 0
Distinct [] = Unit
Distinct (x ∷ xs) = (lists xs x ≡ false) × Distinct xs

-- Whether the search finds something.
abbrev pub found {ℓ} : {A : Type ℓ} → Option A → Bool
found none = false
found (some p) = true

identity_equal_sym : (a b : SlaveIdentity) → identity_equal a b ≡ identity_equal b a
unfolding identity_equal
identity_equal_sym a b = ground arith

identity_equal_trans :
    (a b c : SlaveIdentity) → identity_equal a b ≡ true → identity_equal b c ≡ identity_equal a c
unfolding identity_equal
identity_equal_trans a b c h = ground arith

lists-append :
    (xs ys : List SlaveIdentity) (n : SlaveIdentity)
    → lists (xs ++ ys) n ≡ (lists xs n || lists ys n)
unfolding lists
lists-append [] ys n = refl
lists-append (x ∷ xs) ys n = ground (arith, lists-append xs ys n)

-- An identity that is listed may stand for one that is equal to it.
lists_equal :
    (xs : List SlaveIdentity) (a b : SlaveIdentity)
    → identity_equal a b ≡ true
    → lists xs a ≡ lists xs b
unfolding lists
lists_equal [] a b h = refl
lists_equal (x ∷ xs) a b h =
    let rest = lists_equal xs a b h in
    ground (
      arith,
      rest,
      identity_equal_sym x a,
      identity_equal_sym x b,
      identity_equal_sym a b,
      identity_equal_trans a b x h,
      identity_equal_trans b a x (identity_equal_sym b a ∙ h),
    )

already_lists :
    (out ids : List SlaveIdentity) (id n : SlaveIdentity)
    → lists out id ≡ true
    → (lists out n || lists ids n) ≡ (lists out n || lists (id ∷ ids) n)
unfolding lists
already_lists out ids id n old = elim (Bool-cases (identity_equal id n)) [
  | inl same ↦ ground (arith, old, same, lists_equal out id n same)
  | inr differs ↦ ground (arith, differs)
]

lists-collect :
    (out ids : List SlaveIdentity) (n : SlaveIdentity)
    → lists (collect out ids) n ≡ (lists out n || lists ids n)
unfolding collect lists
lists-collect out [] n = ground arith
lists-collect out (id ∷ ids) n =
    if_cases
      (λ (o : List SlaveIdentity). lists (collect o ids) n ≡ (lists out n || lists (id ∷ ids) n))
      (lists out id) (λ old. lists-collect out ids n ∙ already_lists out ids id n old)
      (λ new. ground (arith, lists-collect (out ++ id ∷ []) ids n, lists-append out (id ∷ []) n))

Distinct-append :
    (out : List SlaveIdentity) (id : SlaveIdentity)
    → Distinct out
    → lists out id ≡ false
    → Distinct (out ++ id ∷ [])
unfolding lists
Distinct-append [] id v new = (refl, tt)
Distinct-append (x ∷ xs) id v new = (
  ground (arith, v.0, new, lists-append xs (id ∷ []) x, identity_equal_sym x id),
  Distinct-append xs id v.1 (ground (arith, new)),
)

collect-Distinct : (out ids : List SlaveIdentity) → Distinct out → Distinct (collect out ids)
unfolding collect
collect-Distinct out [] v = v
collect-Distinct out (id ∷ ids) v =
    if_cases (λ (o : List SlaveIdentity). Distinct (collect o ids)) (lists out id)
      (λ old. collect-Distinct out ids v)
      (λ new. collect-Distinct (out ++ id ∷ []) ids (Distinct-append out id v new))

module _ {ℓ} {R : Type ℓ} where
  lists-collect_all :
      (out : List SlaveIdentity) (ps : List (MotorProfile R)) (n : SlaveIdentity)
      → lists (collect_all out ps) n ≡ (lists out n || found (find_identity ps n))
  unfolding collect_all find_identity
  lists-collect_all out [] n = ground arith
  lists-collect_all out (p ∷ ps) n =
      if_cases
        (λ (o : Option (MotorProfile R)).
          lists (collect_all out (p ∷ ps)) n ≡ (lists out n || found o))
        (lists p.identities n)
        (λ here. ground (
          arith,
          here,
          lists-collect_all (collect out p.identities) ps n,
          lists-collect out p.identities n,
        ))
        (λ there. ground (
          arith,
          there,
          lists-collect_all (collect out p.identities) ps n,
          lists-collect out p.identities n,
        ))

  collect_all-Distinct :
      (out : List SlaveIdentity) (ps : List (MotorProfile R))
      → Distinct out
      → Distinct (collect_all out ps)
  unfolding collect_all
  collect_all-Distinct out [] v = v
  collect_all-Distinct out (p ∷ ps) v =
      collect_all-Distinct (collect out p.identities) ps (collect-Distinct out p.identities v)

-- For every identity, with the registry's numbers over any type: `findByIdentity` finds a profile exactly when
-- `allMotorIdentities` has the identity, and that list has no identity twice.
pub all_motor_identities_lem {ℓ} :
    {R : Type ℓ} (d : Doubles R) (vendor_id product_code : ℕ)
    → (lists (all_motor_identities d) record { vendor_id = vendor_id; product_code = product_code }
        ≡ found (find_by_identity d vendor_id product_code))
      × Distinct (all_motor_identities d)
unfolding all_motor_identities find_by_identity
all_motor_identities_lem d vendor_id product_code = (
  lists-collect_all [] (k_profiles d) record { vendor_id = vendor_id; product_code = product_code },
  collect_all-Distinct [] (k_profiles d) tt,
)
