-- ===== src/Common.antt =====
-- common/common.go: the searches that the other parts use.
pub mod Membership
pub mod Bytes
use cash_prototype.Base.{ℕ, suc, Option, none, some, List, [], ◌∷◌, if◌then◌else◌, String, str_eq}

-- IndexOfStr; `none` is -1.
unfoldable pub index_of_str : String → List String → Option ℕ
index_of_str item [] = none
index_of_str item (v ∷ vs) =
    let rest = index_of_str item vs in
    if str_eq item v then some 0 else elim rest [ none ↦ none | some k ↦ some (suc k) ]
