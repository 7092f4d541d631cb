-- ===== src/Skills/Partition.antt =====
-- What a volume holds after a plan has been carried out.
use vmcp_operator.Base.{
  suc, ◌+◌, ◌≤◌, String, Bool, true, false, not, ◌&&◌, ◌||◌, some, List, [], ◌∷◌, map, ◌==◌,
  string_eq, ◌≡◌, ◌↔◌, refl, ◌∙◌, if◌then◌else◌, length, contains, to_set, select, ok, arith,
  contains-select, contains-to_set, NoDuplicates, Bool-cases, inl, inr,
}
use vmcp_operator.Base.Sorting.{sort, contains-sort}
use vmcp_operator.Base.Dict.{Dict, insert, lookup}
use vmcp_operator.Skills.{
  SkillFile, SkillsSyncPlan, index, keys, check_managed, pick_all, plan_skills_sync,
}

abbrev pub names_of : List SkillFile → List String
names_of = map (λ skill. skill.name)

keys-insert :
    (k a : String) (v : SkillFile) (d : Dict SkillFile)
    → contains (keys (insert k v d)) a ≡ (a == k || contains (keys d) a)
unfolding insert
keys-insert k a v [] = refl
keys-insert k a v ((j, w) ∷ d) = ground (arith, keys-insert k a v d)

length-insert :
    (k : String) (v : SkillFile) (d : Dict SkillFile)
    → length (insert k v d) ≡ (if contains (keys d) k then length d else suc (length d))
unfolding insert
length-insert k v [] = refl
length-insert k v ((j, w) ∷ d) = ground (arith, length-insert k v d)

keys-index :
    (a : String) (d : Dict SkillFile) (skills : List SkillFile)
    → contains (keys (index d skills)) a ≡ (contains (keys d) a || contains (names_of skills) a)
unfolding index
keys-index a d [] = ground arith
keys-index a d (x ∷ xs) =
    ground (arith, keys-index a (insert x.name x d) xs, keys-insert x.name a x d)

length-index-le :
    (d : Dict SkillFile) (skills : List SkillFile)
    → length (index d skills) ≤ length d + length skills
unfolding index
length-index-le d [] = omega arith
length-index-le d (x ∷ xs) =
    ground (arith, length-index-le (insert x.name x d) xs, length-insert x.name x d)

-- No name of the second list stands in the first.
abbrev Apart : List String → List String → Type 0
Apart ks [] = Unit
Apart ks (n ∷ ns) = (contains ks n ≡ false) × Apart ks ns

Apart-insert :
    (k : String) (v : SkillFile) (d : Dict SkillFile) (ns : List String)
    → Apart (keys d) ns
    → contains ns k ≡ false
    → Apart (keys (insert k v d)) ns
Apart-insert k v d [] h f = tt
Apart-insert k v d (n ∷ ns) h f =
    (ground (arith, keys-insert k n v d), Apart-insert k v d ns h.1 (ground arith))

insert-Apart :
    (k : String) (v : SkillFile) (d : Dict SkillFile) (ns : List String)
    → Apart (keys (insert k v d)) ns
    → Apart (keys d) ns × (contains ns k ≡ false)
insert-Apart k v d [] h = (tt, refl)
insert-Apart k v d (n ∷ ns) h =
    let (rest, new) = insert-Apart k v d ns h.1 in
    ((ground (arith, keys-insert k n v d), rest), ground (arith, keys-insert k n v d))

length-index :
    (d : Dict SkillFile) (skills : List SkillFile)
    → Apart (keys d) (names_of skills)
    → NoDuplicates (names_of skills)
    → length (index d skills) ≡ length d + length skills
unfolding index
length-index d [] a u = omega arith
length-index d (x ∷ xs) a u = ground (
  arith,
  length-index (insert x.name x d) xs (Apart-insert x.name x d (names_of xs) a.1 u.0) u.1,
  length-insert x.name x d,
)

index-Apart :
    (d : Dict SkillFile) (skills : List SkillFile)
    → length (index d skills) ≡ length d + length skills
    → Apart (keys d) (names_of skills) × NoDuplicates (names_of skills)
unfolding index
index-Apart d [] h = (tt, tt)
index-Apart d (x ∷ xs) h = elim (Bool-cases (contains (keys d) x.name)) [
  | inl old ↦
      absurd (ground (arith, length-index-le (insert x.name x d) xs, length-insert x.name x d))
  | inr new ↦
      let (a, u) = index-Apart (insert x.name x d) xs (ground (arith, length-insert x.name x d)) in
      let (b, f) = insert-Apart x.name x d (names_of xs) a in ((new, b), (f, u))
]

Apart-nil : (ns : List String) → Apart [] ns
Apart-nil [] = tt
Apart-nil (n ∷ ns) = (refl, Apart-nil ns)

-- Each skill of the dict stands under its name.
abbrev IsIndex : Dict SkillFile → Type 0
IsIndex [] = Unit
IsIndex ((k, v) ∷ d) = (v.name ≡ k) × IsIndex d

insert-IsIndex : (x : SkillFile) (d : Dict SkillFile) → IsIndex d → IsIndex (insert x.name x d)
unfolding insert
insert-IsIndex x [] h = (refl, tt)
insert-IsIndex x ((k, v) ∷ d) h = ground (arith, insert-IsIndex x d h.1)

index-IsIndex : (d : Dict SkillFile) (xs : List SkillFile) → IsIndex d → IsIndex (index d xs)
unfolding index
index-IsIndex d [] h = h
index-IsIndex d (x ∷ xs) h = index-IsIndex (insert x.name x d) xs (insert-IsIndex x d h)

lookup-keys :
    (k : String) (d : Dict SkillFile)
    → IsIndex d
    → contains (keys d) k ≡ true
    → (v : SkillFile) × (lookup k d ≡ some v) × (v.name ≡ k)
unfolding lookup
lookup-keys k [] h c = absurd (ground arith)
lookup-keys k ((j, v) ∷ d) h c = elim (Bool-cases (k == j)) [
  | inl same ↦ (v, ground arith, ground arith)
  | inr other ↦ let (w, e, q) = lookup-keys k d h.1 (ground arith) in (w, ground arith, q)
]

-- Every name is a key.
abbrev Within : List String → List String → Type 0
Within ks [] = Unit
Within ks (n ∷ ns) = (contains ks n ≡ true) × Within ks ns

contains-Within :
    (ks ns : List String)
    → ((a : String) → contains ns a ≡ true → contains ks a ≡ true)
    → Within ks ns
contains-Within ks [] h = tt
contains-Within ks (n ∷ ns) h =
    (h n (ground arith), contains-Within ks ns (λ a m. h a (ground arith)))

pick_all-eq-ok :
    (d : Dict SkillFile) (ns : List String)
    → IsIndex d
    → Within (keys d) ns
    → (xs : List SkillFile) × (pick_all d ns ≡ ok xs) × (names_of xs ≡ ns)
unfolding pick_all
pick_all-eq-ok d [] h w = ([], refl, refl)
pick_all-eq-ok d (n ∷ ns) h w =
    let (v, e, q) = lookup-keys n d h w.0 in
    let (xs, f, r) = pick_all-eq-ok d ns h w.1 in (v ∷ xs, ground arith, cc)

abbrev pub AllManaged : List SkillFile → Type 0
AllManaged [] = Unit
AllManaged (x ∷ xs) = (x.managed ≡ true) × AllManaged xs

check_managed_of_AllManaged : (xs : List SkillFile) → AllManaged xs → check_managed xs ≡ ok tt
unfolding check_managed
check_managed_of_AllManaged [] h = refl
check_managed_of_AllManaged (x ∷ xs) h = ground (arith, check_managed_of_AllManaged xs h.1)

check_managed-AllManaged : (xs : List SkillFile) → check_managed xs ≡ ok tt → AllManaged xs
unfolding check_managed
check_managed-AllManaged [] h = tt
check_managed-AllManaged (x ∷ xs) h = ground (arith, check_managed-AllManaged xs)

-- The written skills of an index, in the order of their names: the lookups never fail.
written :
    (desired : List SkillFile)
    → (xs : List SkillFile) × (pick_all (index [] desired) (sort (keys (index [] desired))) ≡ ok xs)
      × (names_of xs ≡ sort (keys (index [] desired)))
written desired =
    pick_all-eq-ok (index [] desired) (sort (keys (index [] desired))) (index-IsIndex [] desired tt)
      (contains-Within _ _ (λ a m. ground (arith, contains-sort (keys (index [] desired)) a)))

module _ (desired : List SkillFile) (existing previous : List String) where
  abbrev names : List String
  names = keys (index [] desired)

  abbrev delete? : String → Bool
  delete? name = not (contains names name) && contains (to_set existing) name

  abbrev keep? : String → Bool
  keep? name = not (contains names name) && not (contains (to_set previous) name)

  -- The plan, given the files to write.
  abbrev the_plan : List SkillFile → SkillsSyncPlan
  the_plan write = record {
    write = write;
    delete = sort (select delete? (to_set previous));
    keep = sort (select keep? (to_set existing));
  }

  contains-delete :
      (n : String)
      → contains (sort (select delete? (to_set previous))) n
        ≡ (contains existing n && contains previous n && not (contains (names_of desired) n))
  contains-delete n =
      contains-sort (select delete? (to_set previous)) n
      ∙ (contains-select delete? (to_set previous) n
          ∙ ground (
            arith,
            contains-to_set previous n,
            contains-to_set existing n,
            keys-index n [] desired,
          ))

  contains-keep :
      (n : String)
      → contains (sort (select keep? (to_set existing))) n
        ≡ (contains existing n && not (contains previous n) && not (contains (names_of desired) n))
  contains-keep n =
      contains-sort (select keep? (to_set existing)) n
      ∙ (contains-select keep? (to_set existing) n
          ∙ ground (
            arith,
            contains-to_set previous n,
            contains-to_set existing n,
            keys-index n [] desired,
          ))

  -- A plan is made exactly when the desired skills have distinct names and are all managed.
  pub plan_skills_sync-eq-ok_iff :
      ((plan : SkillsSyncPlan) × (plan_skills_sync desired existing previous ≡ ok plan))
      ↔ (NoDuplicates (names_of desired) × AllManaged desired)
  unfolding plan_skills_sync
  plan_skills_sync-eq-ok_iff = (
    λ (plan, h). (
      (index-Apart [] desired (ground arith)).1,
      check_managed-AllManaged desired (ground arith),
    ),
    λ (u, m).
        let (xs, e, q) = written desired in
        (
          the_plan xs,
          ground (
            arith,
            length-index [] desired (Apart-nil (names_of desired)) u,
            check_managed_of_AllManaged desired m,
            e,
          ),
        ),
  )

  plan_skills_sync-eq :
      (plan : SkillsSyncPlan)
      → plan_skills_sync desired existing previous ≡ ok plan
      → plan ≡ the_plan (written desired).0
  unfolding plan_skills_sync
  plan_skills_sync-eq plan h = let (xs, e, q) = written desired in ground (arith, e)

  -- What a plan does with each name: the desired skills are written; of the other files, those
  -- that were managed before are deleted and those that never were are kept.
  pub plan_skills_sync_partition :
      (plan : SkillsSyncPlan) (n : String)
      → plan_skills_sync desired existing previous ≡ ok plan
      → (contains (names_of plan.write) n ≡ contains (names_of desired) n)
        × (contains plan.delete n
            ≡ (contains existing n && contains previous n && not (contains (names_of desired) n)))
        × (contains plan.keep n ≡ (
            contains existing n
            && not (contains previous n)
            && not (contains (names_of desired) n)))
  plan_skills_sync_partition plan n h =
      let (xs, e, q) = written desired in
      rw (plan_skills_sync-eq plan h)
        (rw q (contains-sort names n ∙ keys-index n [] desired), contains-delete n, contains-keep n)
