-- ===== src/Keyboard/Queue.antt =====
-- The ring of keys of src/keyboard/keyboard.c as a queue.
use marrow_os.Base.{
  ℕ, zero, suc, ◌+◌, ◌-◌, ◌%◌, ◌^◌, ◌≤◌, ◌<◌, ◌≡◌, refl, sym, ap, ◌∙◌, ◌≢◌, List, [], ◌∷◌, ◌++◌,
  length, length-append, length-set, get_or, set, get_or-set_self, get_or-set_ne, arith, ==_ne,
  ℕ_discrete, some,
}
use marrow_os.Keyboard.{
  KeyboardBuffer, Keys, with_buffer, buffer_size, keyboard_get_tail_index, push_key, pop_key,
  keyboard_push, keyboard_pop,
}

abbrev pub AllKeys : List ℕ → Type 0
AllKeys [] = Unit
AllKeys (c ∷ q) = (c ≢ 0) × AllKeys q

-- From the head on the ring holds the keys `q`, oldest first, and zeros behind them.
pub record Holds (b : KeyboardBuffer) (q : List ℕ) : Type 0 where
  pub size : length b.buffer ≡ buffer_size
  pub fits : length q ≤ buffer_size
  pub keys : AllKeys q
  pub ends : b.tail ≡ (b.head + length q) % 2 ^ 32
  pub entries :
      (i : ℕ) → i < buffer_size → get_or b.buffer ((b.head + i) % buffer_size) 0 ≡ get_or q i 0

get_or-past : (q : List ℕ) (i : ℕ) → length q ≤ i → get_or q i 0 ≡ 0
get_or-past [] i h = refl
get_or-past (c ∷ q) zero h = absurd (omega arith)
get_or-past (c ∷ q) (suc i) h = get_or-past q i (omega arith)

get_or-snoc_last : (q : List ℕ) (c : ℕ) → get_or (q ++ c ∷ []) (length q) 0 ≡ c
get_or-snoc_last [] c = refl
get_or-snoc_last (x ∷ q) c = get_or-snoc_last q c

get_or-snoc_ne : (q : List ℕ) (c i : ℕ) → i ≢ length q → get_or (q ++ c ∷ []) i 0 ≡ get_or q i 0
get_or-snoc_ne [] c zero h = absurd (h refl)
get_or-snoc_ne [] c (suc i) h = refl
get_or-snoc_ne (x ∷ q) c zero h = refl
get_or-snoc_ne (x ∷ q) c (suc i) h = get_or-snoc_ne q c i (λ e. h (ap suc e))

AllKeys-snoc : (q : List ℕ) (c : ℕ) → AllKeys q → c ≢ 0 → AllKeys (q ++ c ∷ [])
AllKeys-snoc [] c h n = (n, tt)
AllKeys-snoc (x ∷ q) c h n = (h.0, AllKeys-snoc q c h.1 n)

tail_index :
    (b : KeyboardBuffer) (q : List ℕ)
    → Holds b q
    → b.tail % buffer_size ≡ (b.head + length q) % buffer_size
tail_index b q v = omega (arith, v.ends)

-- What the ring holds at its head.
front :
    (b : KeyboardBuffer) (q : List ℕ)
    → Holds b q
    → get_or b.buffer (b.head % buffer_size) 0 ≡ get_or q 0 0
front b q v =
    ap (λ k. get_or b.buffer k 0) {x = b.head % buffer_size} {y = (b.head + 0) % buffer_size}
      (omega arith)
    ∙ v.entries 0 (omega arith)

popped : KeyboardBuffer → KeyboardBuffer
popped b = record b { buffer = set b.buffer (b.head % buffer_size) 0; head = (b.head + 1) % 2 ^ 32 }

popped-Holds : (b : KeyboardBuffer) (q : List ℕ) (c : ℕ) → Holds b (c ∷ q) → Holds (popped b) q
unfolding popped
popped-Holds b q c v = record {
  size = length-set b.buffer _ 0 ∙ v.size;
  fits = omega (arith, v.fits);
  keys = v.keys.1;
  ends = omega (arith, v.ends);
  entries = λ i h. elim (ℕ_discrete i (buffer_size - 1)) [
    | yes last ↦
        ap (λ k. get_or (set b.buffer (b.head % buffer_size) 0) k 0)
          {x = ((b.head + 1) % 2 ^ 32 + i) % buffer_size} {y = b.head % buffer_size} (omega arith)
        ∙ get_or-set_self b.buffer (b.head % buffer_size) 0 0 (omega (arith, v.size))
        ∙ sym (get_or-past q i (omega (arith, v.fits)))
    | no other ↦
        get_or-set_ne b.buffer 0 0 (λ e. other (omega (arith, e)))
        ∙ ap (λ k. get_or b.buffer k 0) {x = ((b.head + 1) % 2 ^ 32 + i) % buffer_size}
            {y = (b.head + suc i) % buffer_size} (omega arith)
        ∙ v.entries (suc i) (omega arith)
  ];
}

-- While the ring is not full, a key that is pushed goes to the end of the queue.
pub push_key-Holds :
    (b : KeyboardBuffer) (q : List ℕ) (c : ℕ)
    → Holds b q
    → c ≢ 0
    → length q < buffer_size
    → Holds (push_key c b) (q ++ c ∷ [])
unfolding push_key keyboard_get_tail_index
push_key-Holds b q c v n room = record {
  size = length-set b.buffer _ c ∙ v.size;
  fits = omega (arith, length-append q (c ∷ []));
  keys = AllKeys-snoc q c v.keys n;
  ends = omega (arith, v.ends, length-append q (c ∷ []));
  entries = λ i h. elim (ℕ_discrete i (length q)) [
    | yes last ↦
        rw (last, get_or-snoc_last q c)
          (ap (λ k. get_or (set b.buffer k c) ((b.head + length q) % buffer_size) 0)
              (tail_index b q v)
            ∙ get_or-set_self b.buffer ((b.head + length q) % buffer_size) c 0
                (omega (arith, v.size)))
    | no other ↦
        get_or-set_ne b.buffer c 0 (λ e. other (omega (arith, v.ends, e)))
        ∙ v.entries i h
        ∙ sym (get_or-snoc_ne q c i other)
  ];
}

-- The oldest key is popped, and the ring holds the others.
pub pop_key-Holds :
    (b : KeyboardBuffer) (q : List ℕ) (c : ℕ)
    → Holds b (c ∷ q)
    → ((pop_key b).0 ≡ c) × Holds (pop_key b).1 q
unfolding pop_key popped
pop_key-Holds b q c v = rw (front b (c ∷ q) v, ==_ne c 0 v.keys.0) (refl, popped-Holds b q c v)

-- Nothing is popped from a ring that holds no key.
pub pop_key-empty : (b : KeyboardBuffer) → Holds b [] → pop_key b ≡ (0, b)
unfolding pop_key
pop_key-empty b v = rw (front b [] v)

-- A key that is pushed while the ring is full takes the place of the oldest key: it is popped next.
pub push_key-full :
    (b : KeyboardBuffer) (c d : ℕ) (q : List ℕ)
    → Holds b (d ∷ q)
    → length (d ∷ q) ≡ buffer_size
    → c ≢ 0
    → (pop_key (push_key c b)).0 ≡ c
unfolding push_key pop_key keyboard_get_tail_index
push_key-full b c d q v full n = rw (
  ap (λ k. get_or (set b.buffer k c) (b.head % buffer_size) 0) {x = b.tail % buffer_size}
        {y = b.head % buffer_size} (omega (arith, v.ends))
      ∙ get_or-set_self b.buffer (b.head % buffer_size) c 0 (omega (arith, v.size)),
  ==_ne c 0 n,
)

-- A key goes to the ring of the current process.
pub keyboard_push-push_key :
    (k : Keys) (p c : ℕ)
    → k.current_process ≡ some p
    → c ≢ 0
    → keyboard_push c k ≡ with_buffer k p (push_key c (k.buffers p))
unfolding keyboard_push
keyboard_push-push_key k p c at n = rw (at, ==_ne c 0 n) refl

-- A key is taken from the ring of the process of the current task.
pub keyboard_pop-pop_key :
    (k : Keys) (p c : ℕ) (q : List ℕ)
    → k.current_task ≡ some p
    → Holds (k.buffers p) (c ∷ q)
    → keyboard_pop k ≡ (c, with_buffer k p (pop_key (k.buffers p)).1)
unfolding keyboard_pop
keyboard_pop-pop_key k p c q at v =
    rw (at, (pop_key-Holds (k.buffers p) q c v).0, ==_ne c 0 v.keys.0) refl

-- From an empty ring nothing is taken.
pub keyboard_pop-empty :
    (k : Keys) (p : ℕ) → k.current_task ≡ some p → Holds (k.buffers p) [] → keyboard_pop k ≡ (0, k)
unfolding keyboard_pop
keyboard_pop-empty k p at v = rw (at, pop_key-empty (k.buffers p) v) refl
