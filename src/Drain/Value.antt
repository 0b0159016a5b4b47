-- ===== src/Drain/Value.antt =====
-- The values that worker_drain.py takes apart, as a JSON parser gives them, and their fields.
use minecraft_ai.Prelude.{
  Bool, true, false, List, [], ◌∷◌, Option, none, some, ◌&&◌, all, if◌then◌else◌, Str, same,
  contains,
}
use minecraft_ai.Prelude.Int.{ℤ}

-- `other` is any value that is none of these, such as a float or a list.
mutual
  pub data Value : Type 0 where
    null other : Value
    boolean : Bool → Value
    integer : ℤ → Value
    text : Str → Value
    object : Items → Value

  pub data Items : Type 0 where
    end : Items
    item : Str → Value → Items → Items

unfoldable pub keys : Items → List Str
keys end = []
keys (item k v rest) = k ∷ keys rest

-- `d.get(k)`; a key that is not there gives None
unfoldable pub field : Items → Str → Value
field end k = null
field (item j v rest) k = if same j k then v else field rest k

-- `value.keys() == fields`
unfoldable pub has_exactly : List Str → Items → Bool
unfolding keys contains
has_exactly fields d = all (contains fields) (keys d) && all (contains (keys d)) fields

-- a result, or none for a ValueError
infixl 5 ◌>>=◌ ◌>>◌
abbrev pub ◌>>=◌ : {A B : Type 0} → Option A → (A → Option B) → Option B
none >>= f = none
some a >>= f = f a

-- `if …: raise ValueError`, with the test that must hold
abbrev pub require : Bool → Option (Unit {0})
require true = some tt
require false = none

abbrev pub ◌>>◌ : {A B : Type 0} → Option A → Option B → Option B
m >> n = m >>= λ _. n
