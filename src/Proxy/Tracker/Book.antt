-- ===== src/Proxy/Tracker/Book.antt =====
-- The book's operations as a map from ids to entries.
use zicade_rs.Prelude.{ℕ, ◌≤◌, ◌<◌, some, List, [], ◌∷◌, ◌++◌, ◌≡◌, ◌≢◌, refl, arith}
use zicade_rs.Proxy.Tracker.{
  Entry, HandleCall, fail, call_entry, find_entry, update_entry, remove_entry, insert_entry,
}

pub call_entry_id : (c : HandleCall) (e : Entry) → (call_entry c e).id ≡ e.id
unfolding call_entry
call_entry_id (fail why) e = ground arith
call_entry_id _ e = refl

pub find_entry_id : (id : ℕ) (es : List Entry) (e : Entry) → find_entry id es ≡ some e → e.id ≡ id
unfolding find_entry
find_entry_id id [] e h = cc
find_entry_id id (x ∷ xs) e h = ground (arith, find_entry_id id xs e)

pub find_entry-insert_ne :
    (id : ℕ) (e : Entry) (es : List Entry)
    → e.id ≢ id
    → find_entry id (insert_entry e es) ≡ find_entry id es
unfolding find_entry insert_entry
find_entry-insert_ne id e [] h = ground arith
find_entry-insert_ne id e (x ∷ xs) h = ground (arith, find_entry-insert_ne id e xs h)

pub find_entry-insert : (e : Entry) (es : List Entry) → find_entry e.id (insert_entry e es) ≡ some e
unfolding find_entry insert_entry
find_entry-insert e [] = ground arith
find_entry-insert e (x ∷ xs) = ground (arith, find_entry-insert e xs)

pub find_entry-update_ne :
    (id other : ℕ) (c : HandleCall) (es : List Entry)
    → other ≢ id
    → find_entry id (update_entry other (call_entry c) es) ≡ find_entry id es
unfolding find_entry update_entry
find_entry-update_ne id other c [] h = refl
find_entry-update_ne id other c (x ∷ xs) h =
    ground (arith, call_entry_id c x, find_entry-update_ne id other c xs h)

pub find_entry-update :
    (id : ℕ) (c : HandleCall) (es : List Entry) (e : Entry)
    → find_entry id es ≡ some e
    → find_entry id (update_entry id (call_entry c) es) ≡ some (call_entry c e)
unfolding find_entry update_entry
find_entry-update id c [] e h = cc
find_entry-update id c (x ∷ xs) e h = ground (arith, call_entry_id c x, find_entry-update id c xs e)

pub find_entry-remove_ne :
    (id other : ℕ) (es : List Entry)
    → other ≢ id
    → find_entry id (remove_entry other es) ≡ find_entry id es
unfolding find_entry remove_entry
find_entry-remove_ne id other [] h = refl
find_entry-remove_ne id other (x ∷ xs) h = ground (arith, find_entry-remove_ne id other xs h)

-- Ids that grow along the list, above a bound.
abbrev pub Ascends : ℕ → List Entry → Type 0
Ascends n [] = Unit {0}
Ascends n (e ∷ es) = (n < e.id) × Ascends e.id es

abbrev pub UpTo : ℕ → List Entry → Type 0
UpTo n [] = Unit {0}
UpTo n (e ∷ es) = (e.id ≤ n) × UpTo n es

pub UpTo-le : (n m : ℕ) (es : List Entry) → n ≤ m → UpTo n es → UpTo m es
UpTo-le n m [] h u = tt
UpTo-le n m (e ∷ es) h u = (omega arith, UpTo-le n m es h u.1)

-- The newest id goes to the end.
pub insert_entry-append :
    (e : Entry) (n : ℕ) (es : List Entry) → UpTo n es → n < e.id → insert_entry e es ≡ es ++ e ∷ []
unfolding insert_entry
insert_entry-append e n [] u h = refl
insert_entry-append e n (x ∷ xs) u h = ground (arith, insert_entry-append e n xs u.1 h)

pub Ascends-concat :
    (n m : ℕ) (es : List Entry) (e : Entry)
    → Ascends n es
    → UpTo m es
    → n < e.id
    → m < e.id
    → Ascends n (es ++ e ∷ [])
Ascends-concat n m [] e a u h k = (h, tt)
Ascends-concat n m (x ∷ xs) e a u h k = (a.0, Ascends-concat x.id m xs e a.1 u.1 (omega arith) k)

pub UpTo-concat :
    (m : ℕ) (es : List Entry) (e : Entry) → UpTo m es → e.id ≤ m → UpTo m (es ++ e ∷ [])
UpTo-concat m [] e u h = (h, tt)
UpTo-concat m (x ∷ xs) e u h = (u.0, UpTo-concat m xs e u.1 h)

pub Ascends-update :
    (n id : ℕ) (c : HandleCall) (es : List Entry)
    → Ascends n es
    → Ascends n (update_entry id (call_entry c) es)
unfolding update_entry
Ascends-update n id c [] a = tt
Ascends-update n id c (x ∷ xs) a =
    ground (arith, call_entry_id c x, Ascends-update x.id id c xs a.1)

pub UpTo-update :
    (n id : ℕ) (c : HandleCall) (es : List Entry)
    → UpTo n es
    → UpTo n (update_entry id (call_entry c) es)
unfolding update_entry
UpTo-update n id c [] a = tt
UpTo-update n id c (x ∷ xs) a = ground (arith, call_entry_id c x, UpTo-update n id c xs a.1)

Ascends-lower : (n m : ℕ) (es : List Entry) → n ≤ m → Ascends m es → Ascends n es
Ascends-lower n m [] h a = tt
Ascends-lower n m (e ∷ es) h a = (omega arith, a.1)

pub Ascends-remove : (n id : ℕ) (es : List Entry) → Ascends n es → Ascends n (remove_entry id es)
unfolding remove_entry
Ascends-remove n id [] a = tt
Ascends-remove n id (x ∷ xs) a =
    ground (arith, Ascends-lower n x.id xs, Ascends-remove x.id id xs a.1)

pub UpTo-remove : (n id : ℕ) (es : List Entry) → UpTo n es → UpTo n (remove_entry id es)
unfolding remove_entry
UpTo-remove n id [] a = tt
UpTo-remove n id (x ∷ xs) a = ground (arith, UpTo-remove n id xs a.1)
