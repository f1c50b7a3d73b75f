-- ===== src/Perf/Numbers.antt =====
-- Texts of numbers, and texts joined and split at commas.
use Prim.Native.String.{String, [] as none_left, ◌∷◌ as ◌⋮◌, ◌++◌}
use gprofiler.Prelude.{ℕ, zero, suc, ◌/◌, ◌%◌, List, [], ◌∷◌, ◌==◌}
use gprofiler.Prelude.Tests.{if◌then◌else◌, ltb}

abbrev pub pick : ℕ → List String → String
pick n [] = ""
pick zero (d ∷ ds) = d
pick (suc n) (d ∷ ds) = pick n ds

abbrev pub digit : ℕ → String
digit n = pick n ("0" ∷ "1" ∷ "2" ∷ "3" ∷ "4" ∷ "5" ∷ "6" ∷ "7" ∷ "8" ∷ "9" ∷ [])

abbrev pub show_within : ℕ → ℕ → String
show_within zero n = digit n
show_within (suc f) n =
    let most = show_within f (n / 10) in if ltb n 10 then digit n else most ++ digit (n % 10)

-- str(n)
abbrev pub show : ℕ → String
show n = show_within n n

-- ",".join(texts)
unfoldable pub join_commas : List String → String
join_commas [] = ""
join_commas (x ∷ []) = x
join_commas (x ∷ y ∷ more) = x ++ ("," ++ join_commas (y ∷ more))

-- len(text.split(","))
unfoldable pub num_parts : String → ℕ
num_parts none_left = 1
num_parts (c ⋮ s) = if (c ⋮ none_left) == "," then suc (num_parts s) else num_parts s
