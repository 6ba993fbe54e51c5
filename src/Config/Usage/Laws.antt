-- ===== src/Config/Usage/Laws.antt =====
-- That the help text of internal/config/usage.go omits no flag and repeats none.
use oidc_token_cli.Base.{
  ℕ, suc, ◌+◌, ◌≤◌, ◌<◌, String, ◌≡◌, refl, ap, ◌∙◌, inl, inr, Bool, true, false, not, ◌&&◌,
  Bool-cases, Option-cases, none, some, List, [], ◌∷◌, ◌++◌, ◌==◌, eq_iff, contains, contains_iff,
  Listed, Distinct, if◌then◌else◌, ltb, arith,
}
use mathlib.Core.Path.{subst}
use oidc_token_cli.Config.Usage.{
  Flag, FlagGroup, groups, find_flag, keep_found, present, Line, blank, section, flag_line,
  flag_lines, section_lines, group_lines, names, seen, unseen, print_grouped_usage,
}

-- How often a name stands in a list.
abbrev pub occurrences : String → List String → ℕ
occurrences n [] = 0
occurrences n (m ∷ ms) = if m == n then suc (occurrences n ms) else occurrences n ms

-- The flags that the lines show.
abbrev pub shown : List Line → List Flag
shown [] = []
shown (blank ∷ ls) = shown ls
shown (section title ∷ ls) = shown ls
shown (flag_line f ∷ ls) = f ∷ shown ls

-- The names in all the groups.
abbrev pub grouped : List FlagGroup → List String
grouped [] = []
grouped (g ∷ gs) = g.flags ++ grouped gs

module _ (n : String) where
  -- How many flags have the name.
  abbrev pub count : List Flag → ℕ
  count fs = occurrences n (names fs)

  occurrences-++ :
      (ms ms' : List String) → occurrences n (ms ++ ms') ≡ occurrences n ms + occurrences n ms'
  occurrences-++ [] ms' = ground arith
  occurrences-++ (m ∷ ms) ms' = ground (arith, occurrences-++ ms ms')

  contains-occurrences : (ms : List String) → contains ms n ≡ ltb 0 (occurrences n ms)
  contains-occurrences [] = refl
  contains-occurrences (m ∷ ms) = ground (arith, contains-occurrences ms)

  shown-flag_lines : (fs : List Flag) → shown (flag_lines fs) ≡ fs
  shown-flag_lines [] = refl
  shown-flag_lines (f ∷ fs) = ap (λ l. f ∷ l) (shown-flag_lines fs)

  count-shown-++ :
      (ls ls' : List Line) → count (shown (ls ++ ls')) ≡ count (shown ls) + count (shown ls')
  count-shown-++ [] ls' = ground arith
  count-shown-++ (blank ∷ ls) ls' = count-shown-++ ls ls'
  count-shown-++ (section title ∷ ls) ls' = count-shown-++ ls ls'
  count-shown-++ (flag_line f ∷ ls) ls' = ground (arith, count-shown-++ ls ls')

  shown-section_lines :
      (first : Bool) (title : String) (fs : List Flag) → shown (section_lines first title fs) ≡ fs
  unfolding section_lines
  shown-section_lines first title [] = refl
  shown-section_lines true title (f ∷ fs) = ap (λ l. f ∷ l) (shown-flag_lines fs)
  shown-section_lines false title (f ∷ fs) = ap (λ l. f ∷ l) (shown-flag_lines fs)

  -- A flag that is found has the name that was looked for; where there is none, no flag has it.
  find_flag-none :
      (m : String) (fs : List Flag) → find_flag m fs ≡ none → occurrences m (names fs) ≡ 0
  unfolding find_flag
  find_flag-none m [] h = refl
  find_flag-none m (f ∷ fs) h = ground (arith, find_flag-none m fs)

  find_flag-some :
      (m : String) (fs : List Flag) (f : Flag)
      → find_flag m fs ≡ some f
      → (f.name ≡ m) × (0 < occurrences m (names fs))
  unfolding find_flag
  find_flag-some m [] f h = cc
  find_flag-some m (g ∷ fs) f h = ground (arith, find_flag-some m fs f, eq_iff g.name m)

  count-keep_found :
      (fs : List Flag) (m : String) (rest : List Flag)
      → count (keep_found (find_flag m fs) rest)
        ≡ (if m == n && ltb 0 (count fs) then suc (count rest) else count rest)
  count-keep_found fs m rest = elim (Option-cases (find_flag m fs)) [
    | inl missing ↦ rw missing (ground (arith, find_flag-none m fs missing, eq_iff m n))
    | inr (f, found) ↦
        rw found (ground (arith, find_flag-some m fs f found, eq_iff m n, eq_iff f.name n))
  ]

  count-present :
      (fs : List Flag) (ms : List String)
      → count (present fs ms) ≡ (if ltb 0 (count fs) then occurrences n ms else 0)
  unfolding present
  count-present fs [] = ground arith
  count-present fs (m ∷ ms) =
      count-keep_found fs m (present fs ms) ∙ ground (arith, count-present fs ms)

  names-++ : (fs fs' : List Flag) → names (fs ++ fs') ≡ names fs ++ names fs'
  names-++ [] fs' = refl
  names-++ (f ∷ fs) fs' = ap (λ l. f.name ∷ l) (names-++ fs fs')

  -- In the groups, a flag is shown as often as they name it.
  count-group_lines :
      (fs : List Flag) (first : Bool) (gs : List FlagGroup)
      → count (shown (group_lines fs first gs))
        ≡ (if ltb 0 (count fs) then occurrences n (grouped gs) else 0)
  unfolding group_lines
  count-group_lines fs first [] = ground arith
  count-group_lines fs first (g ∷ gs) =
      count-shown-++ (section_lines first g.title (present fs g.flags)) (group_lines fs false gs)
      ∙ ground (
        arith,
        ap count (shown-section_lines first g.title (present fs g.flags)),
        count-present fs g.flags,
        count-group_lines fs false gs,
        occurrences-++ g.flags (grouped gs),
      )

  occurrences-seen :
      (fs : List Flag) (gs : List FlagGroup)
      → occurrences n (seen fs gs) ≡ (if ltb 0 (count fs) then occurrences n (grouped gs) else 0)
  unfolding seen
  occurrences-seen fs [] = ground arith
  occurrences-seen fs (g ∷ gs) = ground (
    arith,
    occurrences-++ (names (present fs g.flags)) (seen fs gs),
    count-present fs g.flags,
    occurrences-seen fs gs,
    occurrences-++ g.flags (grouped gs),
  )

  count-unseen :
      (known : List String) (fs : List Flag)
      → count (unseen known fs) ≡ (if contains known n then 0 else count fs)
  unfolding unseen
  count-unseen known [] = ground arith
  count-unseen known (f ∷ fs) = elim (Bool-cases (f.name == n)) [
    | inl same ↦
        ground (arith, ap (contains known) ((eq_iff f.name n).0 same), count-unseen known fs)
    | inr other ↦ ground (arith, count-unseen known fs)
  ]

  count-print_grouped_usage :
      (gs : List FlagGroup) (fs : List Flag)
      → occurrences n (grouped gs) ≤ 1
      → count fs ≤ 1
      → count (shown (print_grouped_usage gs fs)) ≡ count fs
  unfolding print_grouped_usage
  count-print_grouped_usage gs fs once single =
      count-shown-++ (group_lines fs true gs) (section_lines false "Other" (unseen (seen fs gs) fs))
      ∙ ground (
        arith,
        ap count (shown-section_lines false "Other" (unseen (seen fs gs) fs)),
        count-group_lines fs true gs,
        count-unseen (seen fs gs) fs,
        contains-occurrences (seen fs gs),
        occurrences-seen fs gs,
      )

-- What a list without repetition has at most once.
occurrences-Listed : (n : String) (ms : List String) → ¬ Listed n ms → occurrences n ms ≡ 0
occurrences-Listed n [] h = refl
occurrences-Listed n (m ∷ ms) h = ground (arith, eq_iff m n, occurrences-Listed n ms)

occurrences-Distinct : (n : String) (ms : List String) → Distinct ms → occurrences n ms ≤ 1
occurrences-Distinct n [] h = ground arith
occurrences-Distinct n (m ∷ ms) (fresh, rest) = elim (Bool-cases (m == n)) [
  | inl same ↦
      ground
        (arith, occurrences-Listed n ms (subst (λ x. ¬ Listed x ms) ((eq_iff m n).0 same) fresh))
  | inr other ↦ ground (arith, occurrences-Distinct n ms rest)
]

-- The test for a repeated name.
abbrev all_distinct : List String → Bool
all_distinct [] = true
all_distinct (m ∷ ms) = not (contains ms m) && all_distinct ms

all_distinct-Distinct : (ms : List String) → all_distinct ms ≡ true → Distinct ms
all_distinct-Distinct [] h = tt
all_distinct-Distinct (m ∷ ms) h =
    (λ listed. ground (arith, contains_iff ms m), all_distinct-Distinct ms (ground arith))

-- No flag stands in two groups of the program.
groups-Distinct : Distinct (grouped groups)
groups-Distinct = all_distinct-Distinct (grouped groups) refl

-- For a flag set without a repeated name, the help text of the program shows every flag exactly
-- once: no flag is omitted, also where no group names it, and none is shown twice.
pub print_grouped_usage_once :
    (fs : List Flag) (n : String)
    → Distinct (names fs)
    → count n (shown (print_grouped_usage groups fs)) ≡ count n fs
print_grouped_usage_once fs n distinct =
    count-print_grouped_usage n groups fs (occurrences-Distinct n (grouped groups) groups-Distinct)
      (occurrences-Distinct n (names fs) distinct)
