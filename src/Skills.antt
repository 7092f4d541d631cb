-- ===== src/Skills.antt =====
-- python/vmcp_operator/domain/usecases/skills_sync.py: which skill files of a gateway's volume are
-- written, deleted and kept.
pub mod Partition
use vmcp_operator.Base.{
  String, ◌<>◌, Bool, true, false, not, ◌&&◌, Option, none, some, List, [], ◌∷◌, map, ◌==◌,
  string_eq, if◌then◌else◌, eqb, length, contains, to_set, select, value_error, key_error, Result,
  ok, err, ◌>>=◌, ◌>>◌, raise_if,
}
use vmcp_operator.Base.Sorting.{sort}
use vmcp_operator.Base.Dict.{Dict, insert, lookup}

pub record SkillFile : Type 0 where
  pub name : String
  pub content : String
  pub managed : Bool

pub record SkillsSyncPlan : Type 0 where
  pub write : List SkillFile
  pub delete : List String
  pub keep : List String

-- `{skill.name: skill for skill in desired_managed}`
unfoldable pub index : Dict SkillFile → List SkillFile → Dict SkillFile
index d [] = d
index d (skill ∷ skills) = index (insert skill.name skill d) skills

abbrev pub keys : Dict SkillFile → List String
keys d = map (λ (k, _). k) d

-- The loop that refuses an unmanaged skill.
unfoldable pub check_managed : List SkillFile → Result (Unit {0})
check_managed [] = ok tt
check_managed (skill ∷ skills) =
    let rest = check_managed skills in
    if skill.managed
    then rest
    else err (value_error ("skill `" <> (skill.name <> "` must be marked managed")))

-- `tuple(desired_by_name[name] for name in sorted(desired))`
unfoldable pub pick_all : Dict SkillFile → List String → Result (List SkillFile)
pick_all d [] = ok []
pick_all d (name ∷ names) = elim (lookup name d) [
  | none ↦ err (key_error name)
  | some skill ↦ pick_all d names >>= λ rest. ok (skill ∷ rest)
]

-- `PlanSkillsSync.execute`
unfoldable pub plan_skills_sync : List SkillFile → List String → List String → Result SkillsSyncPlan
unfolding index check_managed
plan_skills_sync desired_managed existing_names previously_managed_names = do
  let by_name = index [] desired_managed
  raise_if (not (eqb (length by_name) (length desired_managed)))
      (value_error "duplicate managed skill names")
  check_managed desired_managed
  let existing = to_set existing_names
  let previous = to_set previously_managed_names
  let desired = keys by_name
  write ← pick_all by_name (sort desired)
  ok (record {
    delete = sort (select (λ name. not (contains desired name) && contains existing name) previous);
    keep =
        sort
          (select (λ name. not (contains desired name) && not (contains previous name)) existing);
    write = write;
  })
