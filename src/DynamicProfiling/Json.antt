-- ===== src/DynamicProfiling/Json.antt =====
-- The JSON values in a heartbeat's answer, with the Python operations that the code applies to them.
-- A number is an integer here: the code only copies numbers and tests them for truth.
use gprofiler.Prelude.{
  ℕ, suc, String, Bool, true, false, not, Option, none, some, List, [], ◌∷◌, ◌==◌,
}
use gprofiler.Prelude.Tests.{if◌then◌else◌}
use gprofiler.Prelude.Result.{Result, ok, err, attribute_error}

-- `negsuc n` is -(n + 1).
pub data ℤ : Type 0 where
  pos : ℕ → ℤ
  negsuc : ℕ → ℤ

mutual
  pub data Json : Type 0 where
    null : Json
    bool : Bool → Json
    num : ℤ → Json
    str : String → Json
    arr : Items → Json
    obj : Fields → Json

  pub data Items : Type 0 where
    nil : Items
    cons : Json → Items → Items

  pub data Fields : Type 0 where
    end : Fields
    field : String → Json → Fields → Fields

-- `key in d` and `d[key]` on a dict.
unfoldable pub find : String → Fields → Option Json
find k end = none
find k (field j v fs) = if j == k then some v else find k fs

-- d.get(key, default)
unfoldable pub get : String → Json → Fields → Json
unfolding find
get k default d = elim (find k d) [ none ↦ default | some v ↦ v ]

-- v.get(key, default) where `v` may be any value: what is no dict has no `get`.
unfoldable pub get_of : String → Json → Json → Result Json
unfolding get
get_of k default (obj d) = ok (get k default d)
get_of k default v = err attribute_error

unfoldable pub as_dict : Json → Result Fields
as_dict (obj d) = ok d
as_dict v = err attribute_error

-- bool(v)
abbrev pub truthy : Json → Bool
truthy null = false
truthy (bool b) = b
truthy (num (pos ℕ.zero)) = false
truthy (num (pos (suc n))) = true
truthy (num (negsuc n)) = true
truthy (str s) = not (s == "")
truthy (arr nil) = false
truthy (arr (cons v vs)) = true
truthy (obj end) = false
truthy (obj (field k v fs)) = true

-- v == "text"
abbrev pub is_text : String → Json → Bool
is_text t (str s) = s == t
is_text t v = false

-- v is False
abbrev pub is_false : Json → Bool
is_false (bool b) = not b
is_false v = false

-- v is None
abbrev pub is_none : Json → Bool
is_none null = true
is_none v = false

-- The texts among the items of a list: only these can be found in a list of texts.
abbrev pub texts : Items → List String
texts nil = []
texts (cons (str s) vs) = s ∷ texts vs
texts (cons v vs) = texts vs
