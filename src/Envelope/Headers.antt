-- ===== src/Envelope/Headers.antt =====
-- Go's `map[string]string`: reading a missing key gives the empty text.
use sagaflow.Base.{
  String, ◌≡◌, refl, Bool, true, false, List, [], ◌∷◌, ◌==◌, eq_iff, if◌then◌else◌, arith,
  Bool-cases, inl, inr,
}

abbrev pub HeaderMap : Type 0
HeaderMap = List (String × String)

unfoldable pub get : HeaderMap → String → String
get [] k = ""
get ((j, v) ∷ h) k = if j == k then v else get h k

unfoldable pub put : String → String → HeaderMap → HeaderMap
put k v [] = (k, v) ∷ []
put k v ((j, w) ∷ h) = if j == k then (j, v) ∷ h else (j, w) ∷ put k v h

-- Writing the entries of a list one after the other, as `maps.Copy` does.
unfoldable pub put_all : HeaderMap → HeaderMap → HeaderMap
put_all [] h = h
put_all ((k, v) ∷ rest) h = put_all rest (put k v h)

unfoldable pub has : HeaderMap → String → Bool
has [] k = false
has ((j, v) ∷ h) k = if j == k then true else has h k

-- The keys of a map are distinct.
abbrev pub IsMap : HeaderMap → Type 0
IsMap [] = Unit
IsMap ((k, v) ∷ h) = (has h k ≡ false) × IsMap h

pub get-put :
    (k v : String) (h : HeaderMap) (j : String)
    → get (put k v h) j ≡ (if k == j then v else get h j)
unfolding get put
get-put k v [] j = refl
get-put k v ((i, w) ∷ h) j = ground (arith, get-put k v h j, eq_iff i k, eq_iff i j, eq_iff k j)

pub has-put :
    (k v : String) (h : HeaderMap) (j : String)
    → has (put k v h) j ≡ (if k == j then true else has h j)
unfolding has put
has-put k v [] j = refl
has-put k v ((i, w) ∷ h) j = ground (arith, has-put k v h j, eq_iff i k, eq_iff i j, eq_iff k j)

pub put-IsMap : (k v : String) (h : HeaderMap) → IsMap h → IsMap (put k v h)
unfolding put has
put-IsMap k v [] m = (refl, tt)
put-IsMap k v ((j, w) ∷ h) m =
    ground (arith, put-IsMap k v h m.1, has-put k v h j, eq_iff j k, eq_iff k j)

get_missing : (h : HeaderMap) (k : String) → has h k ≡ false → get h k ≡ ""
unfolding get has
get_missing [] k m = refl
get_missing ((j, v) ∷ h) k m = ground (arith, get_missing h k)

pub get_if_has : (h : HeaderMap) (k : String) → (if has h k then get h k else get [] k) ≡ get h k
get_if_has h k = elim (Bool-cases (has h k)) [
  | inl y ↦ rw y
  | inr n ↦ rw n (rw (get_missing h k n) (unfold get in refl))
]

-- Copying a map over another: the copied entries win.
pub get-put_all :
    (new h : HeaderMap) (k : String)
    → IsMap new
    → get (put_all new h) k ≡ (if has new k then get new k else get h k)
unfolding put_all has get
get-put_all [] h k m = refl
get-put_all ((j, v) ∷ new) h k m =
    ground (arith, get-put_all new (put j v h) k m.1, get-put j v h k, eq_iff j k)

pub put_all-IsMap : (new h : HeaderMap) → IsMap h → IsMap (put_all new h)
unfolding put_all
put_all-IsMap [] h m = m
put_all-IsMap ((k, v) ∷ new) h m = put_all-IsMap new (put k v h) (put-IsMap k v h m)

pub has-put_all :
    (new h : HeaderMap) (k : String) → has (put_all new h) k ≡ (if has new k then true else has h k)
unfolding put_all has
has-put_all [] h k = refl
has-put_all ((j, v) ∷ new) h k = ground (arith, has-put_all new (put j v h) k, has-put j v h k)
