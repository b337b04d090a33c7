-- ===== src/Sandbox/State.antt =====
-- The systems of record of the sandbox (src/promiseguard/adapters/sandbox.py), with dictionaries as
-- association lists and sets as lists without repetition.
use promiseguard_ai.Prelude.{
  ◌≡◌, arith, Bool, true, false, ◌&&◌, Option, none, some, List, [], ◌∷◌, if◌then◌else◌, is_some,
}
use promiseguard_ai.Prelude.Text.{String, str_eq, str_eq_refl}

abbrev pub Dict : Type 0 → Type 0
Dict V = List (String × V)

module _ {V : Type 0} where
  -- `d.get(key)`
  abbrev pub dict_get : String → Dict V → Option V
  dict_get key [] = none
  dict_get key ((k, v) ∷ rest) = if str_eq k key then some v else dict_get key rest

  -- `d[key] = value`
  unfoldable pub dict_set : String → V → Dict V → Dict V
  dict_set key value [] = (key, value) ∷ []
  dict_set key value ((k, v) ∷ rest) =
      let rest' = dict_set key value rest in
      if str_eq k key then (k, value) ∷ rest else (k, v) ∷ rest'

  -- `d.setdefault(key, value)`
  abbrev pub dict_default : String → V → Dict V → Dict V
  dict_default key value d = if is_some (dict_get key d) then d else dict_set key value d

  pub dict_get-dict_set :
      (key : String) (value : V) (d : Dict V) → dict_get key (dict_set key value d) ≡ some value
  unfolding dict_set
  dict_get-dict_set key value [] = ground (arith, str_eq_refl key)
  dict_get-dict_set key value ((k, v) ∷ rest) = ground (arith, dict_get-dict_set key value rest)

-- `x in s`, `s.add(x)` and `s.discard(x)`
abbrev pub member : String → List String → Bool
member x [] = false
member x (y ∷ rest) = if str_eq y x then true else member x rest

abbrev pub add : String → List String → List String
add x xs = if member x xs then xs else x ∷ xs

unfoldable pub discard : String → List String → List String
discard x [] = []
discard x (y ∷ rest) = let rest' = discard x rest in if str_eq y x then rest' else y ∷ rest'

pub member-add : (x : String) (xs : List String) → member x (add x xs) ≡ true
member-add x xs = ground (arith, str_eq_refl x)

pub member-discard : (x : String) (xs : List String) → member x (discard x xs) ≡ false
unfolding discard
member-discard x [] = ground arith
member-discard x (y ∷ rest) = ground (arith, member-discard x rest)

abbrev pub same_pair : String × String → String × String → Bool
same_pair (a, b) (c, d) = str_eq a c && str_eq b d

-- `_SandboxState`
pub record SandboxState : Type 0 where
  pub order_locations : Dict String
  pub carrier_services : Dict String
  pub split_shipments : List String
  pub alternative_reservations : List (String × String)
  pub delivery_outcomes : Dict Bool
  pub applied_idempotency_keys : Dict String
  pub failure_modes : Dict String
