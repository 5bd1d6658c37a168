-- ===== src/PostProcessing/Deduplication.antt =====
-- What is left of the buffered jobs.
use simple_claude_code_githu.Prelude.{
  ◌≡◌, refl, sym, ap, ◌∙◌, inl, inr, Bool, true, false, ◌&&◌, Option, none, some, List, [], ◌∷◌,
  str_eq, eq_iff, Bool-cases, if◌then◌else◌, All,
}
use simple_claude_code_githu.Prelude.Text.{str_eq-sym}
use simple_claude_code_githu.PostProcessing.{
  PostJob, or_text, same_key, remember, remember_all, deduplicate,
}

-- The last of some jobs with the key of `k`, or else the given one.
pub last_like : PostJob → Option PostJob → List PostJob → Option PostJob
last_like k found [] = found
last_like k found (j ∷ js) = last_like k (if same_key j k then some j else found) js

-- The first of some jobs with the key of `k`.
pub first_like : PostJob → List PostJob → Option PostJob
first_like k [] = none
first_like k (j ∷ js) = if same_key j k then some j else first_like k js

-- Jobs whose keys are all different.
abbrev pub Distinct : List PostJob → Type 0
Distinct [] = Unit
Distinct (j ∷ js) = All (λ i. same_key j i ≡ false) js × Distinct js

-- what `same_key` decides
SameKey : PostJob → PostJob → Type 0
SameKey a b =
    (or_text "" a.transcript_path ≡ or_text "" b.transcript_path)
    × ((a.event ≡ b.event) × (a.job_type ≡ b.job_type))

three : (a b c : Bool) → a && b && c ≡ true → (a ≡ true) × ((b ≡ true) × (c ≡ true))
three true true c e = (refl, (refl, e))
three true false c e = cc
three false b c e = cc

same_key-SameKey : (a b : PostJob) → same_key a b ≡ true → SameKey a b
unfolding same_key SameKey
same_key-SameKey a b e =
    let (path, (event, type)) =
      three (str_eq (or_text "" a.transcript_path) (or_text "" b.transcript_path))
        (str_eq a.event b.event) (str_eq a.job_type b.job_type) e in
    ((eq_iff _ _).0 path, ((eq_iff _ _).0 event, (eq_iff _ _).0 type))

same_key-left : (a b c : PostJob) → same_key a b ≡ true → same_key a c ≡ same_key b c
unfolding same_key SameKey
same_key-left a b c e =
    let (path, (event, type)) = same_key-SameKey a b e in rw (path, event, type) refl

same_key-sym : (a b : PostJob) → same_key a b ≡ same_key b a
unfolding same_key
same_key-sym a b =
    rw
      (
        str_eq-sym (or_text "" a.transcript_path) (or_text "" b.transcript_path),
        str_eq-sym a.event b.event,
        str_eq-sym a.job_type b.job_type,
      )
      refl

-- Two jobs of different keys have not both the key of a third.
not_both :
    (j job k : PostJob) → same_key j job ≡ false → same_key j k ≡ true → same_key job k ≡ false
not_both j job k other e =
    let moved = same_key-left j k job e in cc (moved, same_key-sym k job, other)

if_twice :
    {A : Type 0} (b : Bool) (x y z : A)
    → (if b then x else z) ≡ (if b then x else if b then y else z)
if_twice true x y z = refl
if_twice false x y z = refl

if_swap :
    {A : Type 0} (b c : Bool) (x y z : A)
    → (b ≡ true → c ≡ false)
    → (if b then x else if c then y else z) ≡ (if c then y else if b then x else z)
if_swap true true x y z h = cc (h refl)
if_swap true false x y z h = refl
if_swap false true x y z h = refl
if_swap false false x y z h = refl

first_like-remember :
    (k job : PostJob) (seen : List PostJob)
    → first_like k (remember job seen) ≡ (if same_key job k then some job else first_like k seen)
unfolding first_like remember
first_like-remember k job [] = refl
first_like-remember k job (j ∷ js) = elim (Bool-cases (same_key j job)) [
  | inl same ↦
      rw (same, same_key-left j job k same)
        (if_twice (same_key job k) (some job) (some j) (first_like k js))
  | inr other ↦
      rw (other, first_like-remember k job js)
        (if_swap (same_key j k) (same_key job k) (some j) (some job) (first_like k js)
          (not_both j job k other))
]

first_like-all :
    (k : PostJob) (jobs seen : List PostJob)
    → first_like k (remember_all seen jobs) ≡ last_like k (first_like k seen) jobs
unfolding last_like remember_all
first_like-all k [] seen = refl
first_like-all k (j ∷ js) seen =
    first_like-all k js (remember j seen)
    ∙ ap (λ f. last_like k f js) (first_like-remember k j seen)

All-remember :
    (i job : PostJob) (seen : List PostJob)
    → same_key i job ≡ false
    → All (λ j. same_key i j ≡ false) seen
    → All (λ j. same_key i j ≡ false) (remember job seen)
unfolding remember
All-remember i job [] e all = (e, tt)
All-remember i job (j ∷ js) e all = elim (Bool-cases (same_key j job)) [
  | inl same ↦ rw same (e, all.1)
  | inr other ↦ rw other (all.0, All-remember i job js e all.1)
]

All-renamed :
    (j job : PostJob) (js : List PostJob)
    → same_key j job ≡ true
    → All (λ i. same_key j i ≡ false) js
    → All (λ i. same_key job i ≡ false) js
All-renamed j job [] e all = tt
All-renamed j job (i ∷ is) e all =
    (sym (same_key-left j job i e) ∙ all.0, All-renamed j job is e all.1)

Distinct-remember :
    (job : PostJob) (seen : List PostJob) → Distinct seen → Distinct (remember job seen)
unfolding remember
Distinct-remember job [] d = (tt, tt)
Distinct-remember job (j ∷ js) d = elim (Bool-cases (same_key j job)) [
  | inl same ↦ rw same (All-renamed j job js same d.0, d.1)
  | inr other ↦ rw other (All-remember j job js other d.0, Distinct-remember job js d.1)
]

Distinct-all : (jobs seen : List PostJob) → Distinct seen → Distinct (remember_all seen jobs)
unfolding remember_all
Distinct-all [] seen d = d
Distinct-all (j ∷ js) seen d = Distinct-all js (remember j seen) (Distinct-remember j seen d)

-- The jobs that are left after the removal of duplicates have different keys, and the one with the
-- key of a given job is the last one of the buffered jobs with that key, if there is one at all.
pub deduplicate-last :
    (jobs : List PostJob) (k : PostJob)
    → Distinct (deduplicate jobs) × (first_like k (deduplicate jobs) ≡ last_like k none jobs)
unfolding deduplicate first_like
deduplicate-last jobs k = (Distinct-all jobs [] tt, first_like-all k jobs [])
