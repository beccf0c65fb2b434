-- ===== src/Queue/Unlinking.antt =====
-- What send_packet does to the linked list: its first item is unlinked and freed.
use rnode_linux.Base.{
  ℕ, ◌+◌, ◌%◌, ◌≡◌, ◌≢◌, refl, sym, ◌∙◌, subst, inl, inr, none, some, List, [], ◌∷◌, ◌++◌, ne→==,
  ==_refl,
}
use rnode_linux.Queue.Linked.{Linked, update, move_head, unlink_item, item_data}
use rnode_linux.Queue.Chain.{
  Placed, Apart, Distinct, IsAt, PathTo, update-same, update-other, PathTo-frame, Apart-prefix,
  Apart-last, Holds,
}

-- The item stands at the head with its bytes, and is unlinked and freed; no other cell changes.
abbrev pub Unlinks : Linked → Placed → List Placed → Type 0
Unlinks l x items =
    (l.head ≡ x.0)
    × (item_data x.0 l ≡ some x.1)
    × (l' : Linked) × (unlink_item x.0 l ≡ some l')
    × Holds l' items
    × (l'.queue_depth ≡ (l.queue_depth + 65535) % 65536)
    × ((a : ℕ) → x.0 ≢ a → l'.cell a ≡ l.cell a)
    × (l'.cell x.0 ≡ none)

unlink_only :
    (l : Linked) (x : Placed) (n : ℕ)
    → l.head ≡ x.0
    → l.tail ≡ x.0
    → IsAt l.cell x n
    → Unlinks l x []
unfolding unlink_item move_head item_data
unlink_only l x n h t at = (
  h,
  rw at refl,
  record {
    cell = update l.cell x.0 none;
    head = 0;
    tail = 0;
    queue_depth = (l.queue_depth + 65535) % 65536;
  },
  rw (h, t, ==_refl x.0, at) refl,
  record { distinct = tt; placed = tt; linked = inl (refl, refl, refl) },
  refl,
  λ a ne. update-other l.cell x.0 none a (λ e. ne (sym e)),
  update-same l.cell x.0 none,
)

unlink_first :
    (l : Linked) (x : Placed) (front : List Placed) (last : Placed) (n m : ℕ)
    → Distinct (x ∷ front ++ last ∷ [])
    → Apart 0 (x ∷ front ++ last ∷ [])
    → l.head ≡ x.0
    → IsAt l.cell x n
    → PathTo l.cell n front last.0
    → l.tail ≡ last.0
    → IsAt l.cell last m
    → Unlinks l x (front ++ last ∷ [])
unfolding unlink_item move_head item_data
unlink_first l x front last n m (apart, distinct) (ne, placed) h at path end at' =
    let cell' = update l.cell x.0 none in
    let same : (a : ℕ) → x.0 ≢ a → cell' a ≡ l.cell a =
      λ a other. update-other l.cell x.0 none a (λ e. other (sym e)) in
    let more : l.head ≢ l.tail = λ e. Apart-last x.0 front last apart (sym h ∙ e ∙ end) in
    (
      h,
      rw at refl,
      record {
        cell = cell';
        head = n;
        tail = l.tail;
        queue_depth = (l.queue_depth + 65535) % 65536;
      },
      rw (ne→== l.head l.tail more, h, at, at) refl,
      record {
        distinct = distinct;
        placed = placed;
        linked = inr (record {
          front = front;
          last = last;
          all = refl;
          path =
              PathTo-frame l.cell cell' x.0 n front last.0 same
                (Apart-prefix x.0 front (last ∷ []) apart) path;
          end = end;
          after = m;
          at = same last.0 (Apart-last x.0 front last apart) ∙ at';
        });
      },
      refl,
      same,
      update-same l.cell x.0 none,
    )

abbrev UnlinksFirst : Linked → List Placed → Type 0
UnlinksFirst l [] = Unit {0}
UnlinksFirst l (x ∷ items) = Unlinks l x items

unlink_filled :
    (l : Linked) (front : List Placed) (last : Placed) (n : ℕ)
    → Distinct (front ++ last ∷ [])
    → Apart 0 (front ++ last ∷ [])
    → PathTo l.cell l.head front last.0
    → l.tail ≡ last.0
    → IsAt l.cell last n
    → UnlinksFirst l (front ++ last ∷ [])
unlink_filled l [] last n distinct placed path end at = unlink_only l last n path end at
unlink_filled l (x ∷ front) last n distinct placed (h, m, at', path) end at =
    unlink_first l x front last m n distinct placed h at' path end at

-- The first item stands at `head`, and unlinking it leaves the others, in their order.
pub unlink_item-Unlinks :
    (l : Linked) (x : Placed) (items : List Placed) → Holds l (x ∷ items) → Unlinks l x items
unlink_item-Unlinks l x items held = elim held.linked [
  | inl (some_left, _, _) ↦ absurd cc
  | inr filled ↦
      let all = filled.all in
      subst (UnlinksFirst l) (sym all) (
        unlink_filled l filled.front filled.last filled.after (subst Distinct all held.distinct)
          (subst (Apart 0) all held.placed) filled.path filled.end filled.at)
]
