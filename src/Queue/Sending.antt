-- ===== src/Queue/Sending.antt =====
-- send_packet in a thread beside queue_push: the list, the queue and the order at its steps.
use rnode_linux.Base.{
  ℕ, ◌+◌, ◌%◌, ◌≡◌, ◌≢◌, refl, sym, ◌∙◌, ap, subst, some-injective, append_assoc, inl, inr, some,
  List, [], ◌∷◌, ◌++◌, arith, length, Bool-cases, ◌==◌, ==→≡, ==→≢,
}
use rnode_linux.State.{Queue}
use rnode_linux.Queue.Worker.{pop_item}
use rnode_linux.Queue.Linked.{Linked, unlink_item, item_data}
use rnode_linux.Queue.Chain.{Placed, Apart, Holds, Holds-first}
use rnode_linux.Queue.Unlinking.{Unlinks, unlink_item-Unlinks}
use rnode_linux.Queue.Threads.{
  Pusher, waits, has_item, rests, noticed, took, sent_it, Run, packets, Implements, unsent,
}
use rnode_linux.Queue.Pushing.{IsOwn, IsFirst, IsConsistent}

pop_item-Implements :
    (l l' : Linked) (q : Queue) (items : List Placed) (x : Placed)
    → Implements l q (x ∷ items)
    → Holds l' items
    → l'.queue_depth ≡ (l.queue_depth + 65535) % 65536
    → Implements l' (pop_item q) items
unfolding pop_item
pop_item-Implements l l' q items x i held depth =
    let rest : (pop_item q).items ≡ packets items = rw i.same refl in
    record {
      held = held;
      same = rest;
      depth = ap (λ n. (n + 65535) % 65536) i.depth ∙ sym depth;
      count = omega (arith, i.count, ap length i.same, ap length rest);
    }

-- The run after the sender's item is unlinked.
abbrev after_unlink : Run → Linked → Run
after_unlink r l = record r { linked = l; queue = pop_item r.queue; sender = rests }

-- An item that `head` points to is there to be taken.
pub notice-IsConsistent :
    (r : Run)
    → r.sender ≡ rests
    → r.linked.head ≢ 0
    → IsConsistent r
    → IsConsistent (record r { sender = noticed })
notice-IsConsistent r is ne c = record {
  items = c.items;
  implements = c.implements;
  owned = c.owned;
  first = Holds-first r.linked c.items c.implements.held ne;
  unused = c.unused;
  order = subst (λ s. r.pushed ≡ r.aired ++ unsent s r.queue.items) is c.order;
}

pub take_head-IsConsistent :
    (r : Run)
    → r.sender ≡ noticed
    → IsConsistent r
    → IsConsistent (record r { sender = took r.linked.head })
take_head-IsConsistent r is c =
    let (x, rest, e) = subst (λ s. IsFirst s c.items) is c.first in
    record {
      items = c.items;
      implements = c.implements;
      owned = c.owned;
      first = (
        x,
        rest,
        e,
        (unlink_item-Unlinks r.linked x rest (subst (Holds r.linked) e c.implements.held)).0,
      );
      unused = c.unused;
      order = subst (λ s. r.pushed ≡ r.aired ++ unsent s r.queue.items) is c.order;
    }

pub defer-IsConsistent :
    (r : Run) (a : ℕ)
    → r.sender ≡ took a
    → IsConsistent r
    → IsConsistent (record r { sender = rests })
defer-IsConsistent r a is c = record {
  items = c.items;
  implements = c.implements;
  owned = c.owned;
  first = tt;
  unused = c.unused;
  order = subst (λ s. r.pushed ≡ r.aired ++ unsent s r.queue.items) is c.order;
}

-- What the sender took it reads, and later unlinks.
pub first-Unlinks :
    (r : Run) (a : ℕ) (c : IsConsistent r)
    → IsFirst (took a) c.items
    → (x : Placed) × (rest : List Placed) × (c.items ≡ x ∷ rest)
      × (a ≡ x.0)
      × Unlinks r.linked x rest
first-Unlinks r a c (x, rest, e, same) = (
  x,
  rest,
  e,
  same,
  unlink_item-Unlinks r.linked x rest (subst (Holds r.linked) e c.implements.held),
)

pub air-IsConsistent :
    (r : Run) (a : ℕ) (buf : List ℕ)
    → r.sender ≡ took a
    → item_data a r.linked ≡ some buf
    → IsConsistent r
    → IsConsistent (record r { sender = sent_it a; aired = r.aired ++ buf ∷ [] })
air-IsConsistent r a buf is data_is c =
    let (x, rest, e, same, u) = first-Unlinks r a c (subst (λ s. IsFirst s c.items) is c.first) in
    let bytes : x.1 ≡ buf =
      some-injective x.1 buf (sym u.1 ∙ ap (λ n. item_data n r.linked) (sym same) ∙ data_is) in
    let queued : r.queue.items ≡ buf ∷ packets rest =
      c.implements.same ∙ ap packets e ∙ ap (λ b. b ∷ packets rest) bytes in
    record {
      items = c.items;
      implements = c.implements;
      owned = c.owned;
      first = (x, rest, e, same);
      unused = c.unused;
      order =
          subst (λ s. r.pushed ≡ r.aired ++ unsent s r.queue.items) is c.order
          ∙ rw queued (sym (append_assoc r.aired (buf ∷ []) (packets rest)));
    }

IsOwn-kept :
    (s : Pusher) (l l' : Linked) (x : Placed) (rest : List Placed)
    → ((a : ℕ) → x.0 ≢ a → l'.cell a ≡ l.cell a)
    → IsOwn s l (x ∷ rest)
    → IsOwn s l' rest
IsOwn-kept waits l l' x rest kept h = tt
IsOwn-kept (has_item a buf) l l' x rest kept ((ne, g, at), (off, apart)) =
    ((ne, g, kept a (λ e. off (sym e)) ∙ at), apart)

pub unlink-IsConsistent :
    (r : Run) (a : ℕ) (l : Linked)
    → r.sender ≡ sent_it a
    → unlink_item a r.linked ≡ some l
    → IsConsistent r
    → IsConsistent (after_unlink r l)
unfolding pop_item
unlink-IsConsistent r a l is done c =
    let (x, rest, e, same, u) = first-Unlinks r a c (subst (λ s. IsFirst s c.items) is c.first) in
    let (_, _, l', e', held, depth, kept, freed) = u in
    let left : l' ≡ l =
      some-injective l' l (sym e' ∙ ap (λ n. unlink_item n r.linked) (sym same) ∙ done) in
    let queued = c.implements.same ∙ ap packets e in
    subst (λ k. IsConsistent (after_unlink r k)) left
      (record {
        items = rest;
        implements =
            pop_item-Implements r.linked l' r.queue rest x
              (subst (Implements r.linked r.queue) e c.implements) held depth;
        owned =
            IsOwn-kept r.pusher r.linked l' x rest kept (subst (IsOwn r.pusher r.linked) e c.owned);
        first = tt;
        unused = λ b apart away. elim (Bool-cases (b == x.0)) [
          | inl at ↦ ap l'.cell (==→≡ b x.0 at) ∙ freed
          | inr off ↦
              let other = ==→≢ b x.0 off in
              kept b (λ q. other (sym q)) ∙ c.unused b apart (subst (Apart b) (sym e) (other, away))
        ];
        order =
            subst (λ s. r.pushed ≡ r.aired ++ unsent s r.queue.items) is c.order ∙ rw queued refl;
      })
