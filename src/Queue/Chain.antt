-- ===== src/Queue/Chain.antt =====
-- The linked list of the queue in src/queue.c as a list of packets, each in a cell of its own.
use rnode_linux.Base.{
  ℕ, ◌≡◌, ◌≢◌, refl, sym, ◌∙◌, ap, subst, ◌⊎◌, inl, inr, Option, none, some, List, [], ◌∷◌, ◌++◌,
  ne→==, ==_refl,
}
use rnode_linux.Queue.Linked.{Item, Linked, update}

-- An item and where it stands.
abbrev pub Placed : Type 0
Placed = ℕ × List ℕ

abbrev pub Cells : Type 0
Cells = ℕ → Option Item

-- No item of these stands at `a`.
abbrev pub Apart : ℕ → List Placed → Type 0
Apart a [] = Unit {0}
Apart a (x ∷ xs) = (a ≢ x.0) × Apart a xs

abbrev pub Distinct : List Placed → Type 0
Distinct [] = Unit {0}
Distinct (x ∷ xs) = Apart x.0 xs × Distinct xs

-- The item is at its address, and leads to `n`.
abbrev pub IsAt : Cells → Placed → ℕ → Type 0
IsAt cell x n = cell x.0 ≡ some (record { bytes = x.1; next = n })

-- From `h` the items lead to `t`.
abbrev pub PathTo : Cells → ℕ → List Placed → ℕ → Type 0
PathTo cell h [] t = h ≡ t
PathTo cell h (x ∷ xs) t = (h ≡ x.0) × (n : ℕ) × IsAt cell x n × PathTo cell n xs t

pub update-same : (cell : Cells) (a : ℕ) (v : Option Item) → update cell a v a ≡ v
unfolding update
update-same cell a v = rw (==_refl a) refl

pub update-other :
    (cell : Cells) (a : ℕ) (v : Option Item) (x : ℕ) → x ≢ a → update cell a v x ≡ cell x
unfolding update
update-other cell a v x ne = rw (ne→== x a ne) refl

pub PathTo-frame :
    (cell cell' : Cells) (a h : ℕ) (xs : List Placed) (t : ℕ)
    → ((x : ℕ) → a ≢ x → cell' x ≡ cell x)
    → Apart a xs
    → PathTo cell h xs t
    → PathTo cell' h xs t
PathTo-frame cell cell' a h [] t same apart path = path
PathTo-frame cell cell' a h (x ∷ xs) t same (ne, apart) (e, n, at, path) =
    (e, n, same x.0 ne ∙ at, PathTo-frame cell cell' a n xs t same apart path)

pub PathTo-snoc :
    (cell : Cells) (h : ℕ) (xs : List Placed) (x : Placed) (n : ℕ)
    → PathTo cell h xs x.0
    → IsAt cell x n
    → PathTo cell h (xs ++ x ∷ []) n
PathTo-snoc cell h [] x n e at = (e, n, at, refl)
PathTo-snoc cell h (y ∷ ys) x n (e, m, at', path) at =
    (e, m, at', PathTo-snoc cell m ys x n path at)

pub Apart-append : (a : ℕ) (xs ys : List Placed) → Apart a xs → Apart a ys → Apart a (xs ++ ys)
Apart-append a [] ys h k = k
Apart-append a (x ∷ xs) ys (ne, h) k = (ne, Apart-append a xs ys h k)

pub Apart-prefix : (a : ℕ) (xs ys : List Placed) → Apart a (xs ++ ys) → Apart a xs
Apart-prefix a [] ys h = tt
Apart-prefix a (x ∷ xs) ys (ne, h) = (ne, Apart-prefix a xs ys h)

pub Apart-last : (a : ℕ) (xs : List Placed) (y : Placed) → Apart a (xs ++ y ∷ []) → a ≢ y.0
Apart-last a [] y h = h.0
Apart-last a (x ∷ xs) y (ne, h) = Apart-last a xs y h

pub Distinct-snoc :
    (xs : List Placed) (y : Placed) → Distinct xs → Apart y.0 xs → Distinct (xs ++ y ∷ [])
Distinct-snoc [] y d h = (tt, tt)
Distinct-snoc (x ∷ xs) y (a, d) (ne, h) =
    (Apart-append x.0 xs (y ∷ []) a ((λ e. ne (sym e)), tt), Distinct-snoc xs y d h)

pub Distinct-last : (xs : List Placed) (y : Placed) → Distinct (xs ++ y ∷ []) → Apart y.0 xs
Distinct-last [] y d = tt
Distinct-last (x ∷ xs) y (a, d) = ((λ e. Apart-last x.0 xs y a (sym e)), Distinct-last xs y d)

-- The list from `head` to `tail` has these items, and at least one.
pub record IsFilled (l : Linked) (items : List Placed) : Type 0 where
  pub front : List Placed
  pub last : Placed
  pub all : items ≡ front ++ last ∷ []
  pub path : PathTo l.cell l.head front last.0
  pub end : l.tail ≡ last.0
  pub after : ℕ
  pub at : IsAt l.cell last after

-- The list holds these items, in this order, each in a cell of its own.
pub record Holds (l : Linked) (items : List Placed) : Type 0 where
  pub distinct : Distinct items
  pub placed : Apart 0 items
  pub linked : ((items ≡ []) × (l.head ≡ 0) × (l.tail ≡ 0)) ⊎ IsFilled l items

-- No cell but these items' has changed.
abbrev pub SameBut : List Placed → Linked → Linked → Type 0
SameBut items l l' = (a : ℕ) → Apart a items → l'.cell a ≡ l.cell a

-- An item that is allocated, and not linked yet.
abbrev pub IsReady : Linked → Placed → Type 0
IsReady l x = (x.0 ≢ 0) × (g : ℕ) × IsAt l.cell x g

Apart-path :
    (cell : Cells) (a h : ℕ) (xs : List Placed) (t : ℕ)
    → cell a ≡ none
    → PathTo cell h xs t
    → Apart a xs
Apart-path cell a h [] t free path = tt
Apart-path cell a h (x ∷ xs) t free (e, n, at, path) =
    ((λ same. absurd (clash same)), Apart-path cell a n xs t free path)
  where
    clash : a ≡ x.0 → ⊥
    clash same = let both = sym free ∙ ap cell same ∙ at in cc

-- A cell that is free holds no item of the list.
pub Apart-free :
    (l : Linked) (items : List Placed) (a : ℕ) → Holds l items → l.cell a ≡ none → Apart a items
Apart-free l items a held free = elim held.linked [
  | inl (none_left, _, _) ↦ subst (Apart a) (sym none_left) tt
  | inr filled ↦ subst (Apart a) (sym filled.all) (
      Apart-append a filled.front (filled.last ∷ [])
        (Apart-path l.cell a l.head filled.front filled.last.0 free filled.path)
        ((λ same. clash filled same), tt))
]
  where
    clash : (f : IsFilled l items) → a ≡ f.last.0 → ⊥
    clash f same = let both = sym free ∙ ap l.cell same ∙ f.at in cc

-- A list whose `head` is not NULL has a first item.
pub Holds-first :
    (l : Linked) (items : List Placed)
    → Holds l items
    → l.head ≢ 0
    → (x : Placed) × (rest : List Placed) × (items ≡ x ∷ rest)
Holds-first l [] held ne = elim held.linked [
  | inl (_, h, _) ↦ absurd (ne h)
  | inr filled ↦ absurd (no_last filled.front filled.last filled.all)
]
  where
    no_last : (xs : List Placed) (x : Placed) → [] ≢ xs ++ x ∷ []
    no_last [] x e = cc
    no_last (y ∷ ys) x e = cc
Holds-first l (x ∷ rest) held ne = (x, rest, refl)
