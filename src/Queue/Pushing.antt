-- ===== src/Queue/Pushing.antt =====
-- queue_push in a thread beside send_packet: the list, the queue and the order at its steps.
use rnode_linux.Base.{
  ℕ, ◌+◌, ◌%◌, ◌≡◌, ◌≢◌, refl, sym, ◌∙◌, ap, subst, some-injective, append_assoc, inl, none, some,
  List, [], ◌∷◌, ◌++◌, arith, length-append,
}
use rnode_linux.State.{Queue}
use rnode_linux.Queue.Items.{push_item}
use rnode_linux.Queue.Linked.{Linked, new_item, link_item}
use rnode_linux.Queue.Chain.{Placed, Apart, Holds, IsReady, Apart-free, Apart-prefix, Apart-last}
use rnode_linux.Queue.Linking.{Links, link_item-Links, new_item-Holds}
use rnode_linux.Queue.Threads.{
  Pusher, waits, has_item, Sender, rests, noticed, took, sent_it, Run, begin_run, packets,
  Implements, unsent,
}

-- The items in use besides the list's: the pusher's own.
abbrev pub own : Pusher → List Placed
own waits = []
own (has_item a buf) = (a, buf) ∷ []

abbrev pub IsOwn : Pusher → Linked → List Placed → Type 0
IsOwn waits l items = Unit {0}
IsOwn (has_item a buf) l items = IsReady l (a, buf) × Apart a items

-- What the sender knows of the list's first item.
abbrev pub IsFirst : Sender → List Placed → Type 0
IsFirst rests items = Unit {0}
IsFirst noticed items = (x : Placed) × (rest : List Placed) × (items ≡ x ∷ rest)
IsFirst (took a) items = (x : Placed) × (rest : List Placed) × (items ≡ x ∷ rest) × (a ≡ x.0)
IsFirst (sent_it a) items = (x : Placed) × (rest : List Placed) × (items ≡ x ∷ rest) × (a ≡ x.0)

pub record IsConsistent (r : Run) : Type 0 where
  pub items : List Placed
  pub implements : Implements r.linked r.queue items
  pub owned : IsOwn r.pusher r.linked items
  pub first : IsFirst r.sender items
  pub unused : (a : ℕ) → Apart a (own r.pusher) → Apart a items → r.linked.cell a ≡ none
  pub order : r.pushed ≡ r.aired ++ unsent r.sender r.queue.items

pub begin_run-IsConsistent : (q : Queue) → IsConsistent (begin_run q)
begin_run-IsConsistent q = record {
  items = [];
  implements = record {
    held = record { distinct = tt; placed = tt; linked = inl (refl, refl, refl) };
    same = refl;
    depth = refl;
    count = refl;
  };
  owned = tt;
  first = tt;
  unused = λ a _ _. refl;
  order = refl;
}

packets-snoc : (xs : List Placed) (x : Placed) → packets (xs ++ x ∷ []) ≡ packets xs ++ x.1 ∷ []
packets-snoc [] x = refl
packets-snoc (y ∷ xs) x = ap (λ l. y.1 ∷ l) (packets-snoc xs x)

IsFirst-snoc :
    (s : Sender) (xs : List Placed) (x : Placed) → IsFirst s xs → IsFirst s (xs ++ x ∷ [])
IsFirst-snoc rests xs x h = tt
IsFirst-snoc noticed xs x (y, rest, e) = (y, rest ++ x ∷ [], ap (λ l. l ++ x ∷ []) e)
IsFirst-snoc (took a) xs x (y, rest, e, same) = (y, rest ++ x ∷ [], ap (λ l. l ++ x ∷ []) e, same)
IsFirst-snoc (sent_it a) xs x (y, rest, e, same) =
    (y, rest ++ x ∷ [], ap (λ l. l ++ x ∷ []) e, same)

unsent-snoc :
    (s : Sender) (xs : List Placed) (buf : List ℕ)
    → IsFirst s xs
    → unsent s (packets xs ++ buf ∷ []) ≡ unsent s (packets xs) ++ buf ∷ []
unsent-snoc rests xs buf h = refl
unsent-snoc noticed xs buf h = refl
unsent-snoc (took a) xs buf h = refl
unsent-snoc (sent_it a) [] buf (x, rest, e, same) = absurd cc
unsent-snoc (sent_it a) (x ∷ xs) buf h = refl

push_item-Implements :
    (l l' : Linked) (q : Queue) (items : List Placed) (x : Placed)
    → Implements l q items
    → Holds l' (items ++ x ∷ [])
    → l'.queue_depth ≡ (l.queue_depth + 1) % 65536
    → Implements l' (push_item x.1 q) (items ++ x ∷ [])
unfolding push_item
push_item-Implements l l' q items x i held depth = record {
  held = held;
  same = ap (λ xs. xs ++ x.1 ∷ []) i.same ∙ sym (packets-snoc items x);
  depth = ap (λ n. (n + 1) % 65536) i.depth ∙ sym depth;
  count = omega (arith, i.count, length-append q.items (x.1 ∷ []));
}

-- The run after the pusher's item is linked.
abbrev after_link : Run → List ℕ → Linked → Run
after_link r buf l = record r {
  linked = l;
  queue = push_item buf r.queue;
  pusher = waits;
  pushed = r.pushed ++ buf ∷ [];
}

-- The pusher's item can be linked.
abbrev LinksOwn : Run → ℕ → List ℕ → List Placed → Type 0
LinksOwn r a buf items = Links r.linked items (a, buf)

pub own-Links :
    (r : Run) (a : ℕ) (buf : List ℕ)
    → r.pusher ≡ has_item a buf
    → (c : IsConsistent r) → LinksOwn r a buf c.items
own-Links r a buf is c =
    let (ready, apart) = subst (λ s. IsOwn s r.linked c.items) is c.owned in
    link_item-Links r.linked c.items (a, buf) c.implements.held apart ready

pub link-IsConsistent :
    (r : Run) (a : ℕ) (buf : List ℕ) (l : Linked)
    → r.pusher ≡ has_item a buf
    → link_item a r.linked ≡ some l
    → IsConsistent r
    → IsConsistent (after_link r buf l)
unfolding push_item
link-IsConsistent r a buf l is e c =
    let (l', e', held, depth, same) = own-Links r a buf is c in
    let items = c.items ++ (a, buf) ∷ [] in
    subst (λ x. IsConsistent (after_link r buf x)) (some-injective l' l (sym e' ∙ e))
      (record {
        items = items;
        implements =
            push_item-Implements r.linked l' r.queue c.items (a, buf) c.implements held depth;
        owned = tt;
        first = IsFirst-snoc r.sender c.items (a, buf) c.first;
        unused = λ x _ apart.
            same x (Apart-prefix x c.items ((a, buf) ∷ []) apart)
            ∙ c.unused x
                (subst (λ s. Apart x (own s)) (sym is) (Apart-last x c.items (a, buf) apart, tt))
                (Apart-prefix x c.items ((a, buf) ∷ []) apart);
        order =
            ap (λ xs. xs ++ buf ∷ []) c.order
            ∙ append_assoc r.aired (unsent r.sender r.queue.items) (buf ∷ [])
            ∙ ap (λ xs. r.aired ++ xs)
                (ap (λ xs. unsent r.sender xs ++ buf ∷ []) c.implements.same
                  ∙ sym (unsent-snoc r.sender c.items buf c.first)
                  ∙ ap (λ xs. unsent r.sender (xs ++ buf ∷ [])) (sym c.implements.same));
      })

pub allocate-IsConsistent :
    (r : Run) (a garbage : ℕ) (buf : List ℕ)
    → r.pusher ≡ waits
    → a ≢ 0
    → r.linked.cell a ≡ none
    → IsConsistent r
    → IsConsistent (record r { linked = new_item a garbage buf r.linked; pusher = has_item a buf })
unfolding new_item
allocate-IsConsistent r a garbage buf is ne free c =
    let apart = Apart-free r.linked c.items a c.implements.held free in
    let (held, ready, same) =
      new_item-Holds r.linked c.items (a, buf) garbage c.implements.held ne apart in
    record {
      items = c.items;
      implements = record {
        held = held;
        same = c.implements.same;
        depth = c.implements.depth;
        count = c.implements.count;
      };
      owned = (ready, apart);
      first = c.first;
      unused = λ x other away.
          same x other.0 ∙ c.unused x (subst (λ s. Apart x (own s)) (sym is) tt) away;
      order = c.order;
    }
