-- ===== src/Queue/Linking.antt =====
-- What queue_push does to the linked list: a new item is allocated, and goes to its end.
use rnode_linux.Base.{
  ℕ, ◌+◌, ◌%◌, ◌≡◌, ◌≢◌, refl, sym, ◌∙◌, ap, subst, inl, inr, Option, some, List, [], ◌∷◌, ◌++◌,
  arith, ne→==,
}
use rnode_linux.Queue.Linked.{Item, Linked, update, new_item, link_item}
use rnode_linux.Queue.Chain.{
  Placed, Apart, Distinct, IsAt, PathTo, update-same, update-other, PathTo-frame, PathTo-snoc,
  Apart-append, Apart-prefix, Apart-last, Distinct-snoc, Distinct-last, Holds, SameBut, IsReady,
}

-- The item is linked at the end.
abbrev pub Links : Linked → List Placed → Placed → Type 0
Links l items x =
    (l' : Linked) × (link_item x.0 l ≡ some l')
    × Holds l' (items ++ x ∷ [])
    × (l'.queue_depth ≡ (l.queue_depth + 1) % 65536)
    × SameBut items l l'

link_first : (l : Linked) (x : Placed) → l.head ≡ 0 → l.tail ≡ 0 → IsReady l x → Links l [] x
unfolding link_item
link_first l x h t (ne, g, at) = (
  record l { head = x.0; tail = x.0; queue_depth = (l.queue_depth + 1) % 65536 },
  rw (h, t) refl,
  record {
    distinct = (tt, tt);
    placed = ((λ e. ne (sym e)), tt);
    linked =
        inr (record {
          front = [];
          last = x;
          all = refl;
          path = refl;
          end = refl;
          after = g;
          at = at;
        });
  },
  refl,
  λ a apart. refl,
)

link_last :
    (l : Linked) (front : List Placed) (last x : Placed) (n : ℕ)
    → Distinct (front ++ last ∷ [])
    → Apart 0 (front ++ last ∷ [])
    → PathTo l.cell l.head front last.0
    → l.tail ≡ last.0
    → IsAt l.cell last n
    → Apart x.0 (front ++ last ∷ [])
    → IsReady l x
    → Links l (front ++ last ∷ []) x
unfolding link_item
link_last l front last x n distinct placed path end at apart (ne, g, ready) =
    let cell' = update l.cell l.tail (some (record { bytes = last.1; next = x.0 })) in
    let used : l.cell l.tail ≡ some (record { bytes = last.1; next = n }) = ap l.cell end ∙ at in
    let off : l.tail ≢ 0 = λ e. Apart-last 0 front last placed (sym e ∙ end) in
    let same : (y : ℕ) → last.0 ≢ y → cell' y ≡ l.cell y =
      λ y other. update-other l.cell l.tail _ y (λ e. other (sym end ∙ sym e)) in
    (
      record l { cell = cell'; tail = x.0; queue_depth = (l.queue_depth + 1) % 65536 },
      rw (used, ne→== l.tail 0 off) (ground arith),
      record {
        distinct = Distinct-snoc (front ++ last ∷ []) x distinct apart;
        placed = Apart-append 0 (front ++ last ∷ []) (x ∷ []) placed ((λ e. ne (sym e)), tt);
        linked = inr (record {
          front = front ++ last ∷ [];
          last = x;
          all = refl;
          path =
              PathTo-snoc cell' l.head front last x.0
                (PathTo-frame l.cell cell' last.0 l.head front last.0 same
                  (Distinct-last front last distinct) path)
                (ap cell' (sym end) ∙ update-same l.cell l.tail _);
          end = refl;
          after = g;
          at = same x.0 (λ e. Apart-last x.0 front last apart (sym e)) ∙ ready;
        });
      },
      refl,
      λ y away. same y (λ e. Apart-last y front last away (sym e)),
    )

-- Linking an item that is allocated, in a cell of its own, puts it behind the others, whatever `next` it has.
pub link_item-Links :
    (l : Linked) (items : List Placed) (x : Placed)
    → Holds l items
    → Apart x.0 items
    → IsReady l x
    → Links l items x
link_item-Links l items x held apart ready = elim held.linked [
  | inl (none_left, h, t) ↦ rw none_left (link_first l x h t ready)
  | inr filled ↦
      let all = filled.all in
      subst (λ xs. Links l xs x) (sym all)
        (link_last l filled.front filled.last x filled.after (subst Distinct all held.distinct)
          (subst (Apart 0) all held.placed) filled.path filled.end filled.at
          (subst (Apart x.0) all apart) ready)
]

-- An item that is allocated in a cell that holds none of the list's leaves the list as it is.
pub new_item-Holds :
    (l : Linked) (items : List Placed) (x : Placed) (garbage : ℕ)
    → Holds l items
    → x.0 ≢ 0
    → Apart x.0 items
    → Holds (new_item x.0 garbage x.1 l) items
      × IsReady (new_item x.0 garbage x.1 l) x
      × ((a : ℕ) → a ≢ x.0 → (new_item x.0 garbage x.1 l).cell a ≡ l.cell a)
unfolding new_item
new_item-Holds l items x garbage held ne apart =
    let v : Option Item = some (record { bytes = x.1; next = garbage }) in
    let same : (a : ℕ) → x.0 ≢ a → update l.cell x.0 v a ≡ l.cell a =
      λ a other. update-other l.cell x.0 v a (λ e. other (sym e)) in
    (
      record {
        distinct = held.distinct;
        placed = held.placed;
        linked = elim held.linked [
          | inl none_left ↦ inl none_left
          | inr filled ↦
              let there = subst (Apart x.0) filled.all apart in
              inr (record {
                front = filled.front;
                last = filled.last;
                all = filled.all;
                path =
                    PathTo-frame l.cell (update l.cell x.0 v) x.0 l.head filled.front filled.last.0
                      same (Apart-prefix x.0 filled.front (filled.last ∷ []) there) filled.path;
                end = filled.end;
                after = filled.after;
                at = same filled.last.0 (Apart-last x.0 filled.front filled.last there) ∙ filled.at;
              })
        ];
      },
      (ne, garbage, update-same l.cell x.0 v),
      λ a other. update-other l.cell x.0 v a other,
    )
