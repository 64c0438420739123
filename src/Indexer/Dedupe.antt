-- ===== src/Indexer/Dedupe.antt =====
-- src/indexer/storage/dedupe.rs: the window of recent keys. The set is the list of its members.
pub mod Window
use kaspa_portal.Base.{ℕ, Bool, true, false, not, List, [], ◌∷◌, ◌++◌, length, ltb, if◌then◌else◌}
use kaspa_portal.Base.Dict.{retain}
use kaspa_portal.Base.Dict.Aligned.{contains}
use kaspa_portal.Base.Equality.{Str, same_str, str_eq}

pub record RecentKeys : Type 0 where
  pub capacity : ℕ
  pub set : List Str
  pub order : List Str

unfoldable pub new : ℕ → RecentKeys
new capacity = record { capacity = capacity; set = []; order = [] }

-- the loop of `trim`, over the order that is left
unfoldable pub trim_on : ℕ → List Str → List Str → List Str × List Str
trim_on capacity set [] = (set, [])
trim_on capacity set (key ∷ order) =
    let rest = trim_on capacity (retain (λ k. not (same_str key k)) set) order in
    if ltb capacity (length (key ∷ order)) then rest else (set, key ∷ order)

unfoldable pub trim : RecentKeys → RecentKeys
unfolding trim_on
trim r =
    let (set, order) = trim_on r.capacity r.set r.order in record r { set = set; order = order }

unfoldable pub observe : RecentKeys → Str → Bool × RecentKeys
observe r key =
    if contains key r.set
    then (false, r)
    else (true, trim (record r { set = r.set ++ (key ∷ []); order = r.order ++ (key ∷ []) }))

unfoldable pub clear : RecentKeys → RecentKeys
clear r = record r { set = []; order = [] }
