-- ===== src/KeyState/Backers.antt =====
-- The witness list that a rotation leaves.
use affinidi_keri_rs.Prelude.{
  String, ◌≡◌, refl, not, ◌&&◌, ◌||◌, List, [], ◌∷◌, arith, nat_eq, string_eq, retain, contains,
  Nodup, push_new, contains-retain, contains-push_new, retain-Nodup, push_new-Nodup,
}
use affinidi_keri_rs.KeyState.{add_backers, rotate_backers}

contains-add_backers :
    (backers add : List String) (b : String)
    → contains (add_backers backers add) b ≡ (contains add b || contains backers b)
unfolding add_backers contains
contains-add_backers backers [] b = refl
contains-add_backers backers (a ∷ as') b =
    ground (arith, contains-add_backers (push_new backers a) as' b, contains-push_new backers a b)

add_backers-Nodup : (backers add : List String) → Nodup backers → Nodup (add_backers backers add)
unfolding add_backers
add_backers-Nodup backers [] h = h
add_backers-Nodup backers (a ∷ as') h =
    add_backers-Nodup (push_new backers a) as' (push_new-Nodup backers a h)

-- A witness is in the list after a rotation exactly when it was added, or was there and was not
-- removed; so one that is both removed and added stays.
pub contains-rotate_backers :
    (backers remove add : List String) (b : String)
    → contains (rotate_backers backers remove add) b
      ≡ (contains add b || (not (contains remove b) && contains backers b))
unfolding rotate_backers
contains-rotate_backers backers remove add b =
    rw
      (
        contains-add_backers (retain (λ c. not (contains remove c)) backers) add b,
        contains-retain (λ c. not (contains remove c)) backers b,
      )
      refl

-- A list without repetition stays so, whatever the event lists.
pub rotate_backers-Nodup :
    (backers remove add : List String) → Nodup backers → Nodup (rotate_backers backers remove add)
unfolding rotate_backers
rotate_backers-Nodup backers remove add h =
    add_backers-Nodup _ add (retain-Nodup (λ c. not (contains remove c)) backers h)
