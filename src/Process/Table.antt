-- ===== src/Process/Table.antt =====
-- The table of processes of src/task/process.c. A process is named by its slot, which is its id.
use mathlib.Core.Option
use mathlib.Core.Option.{some-injective}
use marrow_os.Base.{
  ℕ, zero, suc, ◌+◌, ◌<◌, ◌≡◌, ◌≢◌, inl, inr, refl, sym, ap, subst, ◌∙◌, Bool, true, false, Option,
  none, some, List, [], ◌∷◌, length, leb, ◌==◌, if◌then◌else◌, get_or, set, ℤ, pos, negsuc, arith,
  ==_ne, ==_refl, Option-cases, get_or-set_self, get_or-set_ne, ℕ_discrete,
}
use marrow_os.Process.{max_processes}

-- Which slots of `processes` are in use, and `current_process`.
pub record Table : Type 0 where
  pub processes : List Bool
  pub current : Option ℕ

-- `none` is the null pointer.
pub process_get : ℤ → Table → Option ℕ
process_get (negsuc n) t = none
process_get (pos process_id) t =
    if leb max_processes process_id
    then none
    else (if get_or t.processes process_id false then some process_id else none)

unfoldable pub process_switch : ℕ → Table → Table
process_switch process t = record t { current = some process }

-- The loop of `process_get_free_slot` from slot `i` on; `none` is -EISTKN.
unfoldable pub free_slot_from : List Bool → ℕ → Option ℕ
free_slot_from [] i = none
free_slot_from (used ∷ processes) i = if used then free_slot_from processes (i + 1) else some i

unfoldable pub process_get_free_slot : Table → Option ℕ
process_get_free_slot t = free_slot_from t.processes 0

-- The loop of `process_switch_to_any` from slot `i` on.
unfoldable pub used_slot_from : List Bool → ℕ → Option ℕ
used_slot_from [] i = none
used_slot_from (used ∷ processes) i = if used then some i else used_slot_from processes (i + 1)

-- `none` is the panic.
unfoldable pub process_switch_to_any : Table → Option Table
process_switch_to_any t =
    Option.map (λ process. process_switch process t) (used_slot_from t.processes 0)

unfoldable pub process_unlink : ℕ → Table → Option Table
process_unlink process t =
    let cleared : Table = record t { processes = set t.processes process false } in
    elim t.current [
      | none ↦ some cleared
      | some current ↦ if current == process then process_switch_to_any cleared else some cleared
    ]

free_slot_from-first :
    (es : List Bool) (j i : ℕ)
    → free_slot_from es j ≡ some i
    → (n : ℕ) × (i ≡ j + n)
      × (get_or es n false ≡ false)
      × ((m : ℕ) → m < n → get_or es m false ≡ true)
unfolding free_slot_from
free_slot_from-first [] j i h = cc
free_slot_from-first (false ∷ es) j i h =
    (0, sym (some-injective _ _ h) ∙ omega arith, refl, λ m l. absurd (omega arith))
free_slot_from-first (true ∷ es) j i h =
    let (n, at, free, used) = free_slot_from-first es (j + 1) i h in
    (suc n, omega arith, free, λ m l. below es n m l used)
  where
    below :
        (es : List Bool) (n m : ℕ)
        → m < suc n
        → ((m : ℕ) → m < n → get_or es m false ≡ true)
        → get_or (true ∷ es) m false ≡ true
    below es n zero l used = refl
    below es n (suc m) l used = used m (omega arith)

used_slot_from-used :
    (es : List Bool) (j i : ℕ)
    → used_slot_from es j ≡ some i
    → (n : ℕ) × (i ≡ j + n) × (get_or es n false ≡ true)
unfolding used_slot_from
used_slot_from-used [] j i h = cc
used_slot_from-used (true ∷ es) j i h = (0, sym (some-injective _ _ h) ∙ omega arith, refl)
used_slot_from-used (false ∷ es) j i h =
    let (n, at, used) = used_slot_from-used es (j + 1) i h in (suc n, omega arith, used)

-- The slot that `process_get_free_slot` returns has no process, and every slot before it has one.
pub process_get_free_slot-first :
    (t : Table) (i : ℕ)
    → process_get_free_slot t ≡ some i
    → i < max_processes
    → (process_get (pos i) t ≡ none) × ((m : ℕ) → m < i → process_get (pos m) t ≡ some m)
unfolding process_get_free_slot process_get
process_get_free_slot-first t i h l =
    let (n, at, free, used) = free_slot_from-first t.processes 0 i h in
    let same : n ≡ i = omega arith in
    let free' : get_or t.processes i false ≡ false =
      subst (λ k. get_or t.processes k false ≡ false) same free in
    (ground arith, λ m below. ground (arith, used m (omega arith)))

Unlinked : ℕ → List Bool → Table → Type 0
Unlinked process es t' = (t'.processes ≡ set es process false) × (t'.current ≢ some process)

unlinked_to_any :
    (process i : ℕ) (es : List Bool)
    → process < length es
    → used_slot_from (set es process false) 0 ≡ some i
    → i ≢ process
unlinked_to_any process i es l h e =
    let (n, at, used) = used_slot_from-used (set es process false) 0 i h in
    let same : n ≡ process = omega arith in
    let off : get_or (set es process false) process false ≡ false =
      get_or-set_self es process false false l in
    let on : get_or (set es process false) process false ≡ true =
      subst (λ k. get_or (set es process false) k false ≡ true) same used in
    let clash : false ≡ true = sym off ∙ on in cc

unlink_cases :
    (process : ℕ) (es : List Bool) (current : Option ℕ) (t' : Table)
    → process < length es
    → process_unlink process (record { processes = es; current = current }) ≡ some t'
    → Unlinked process es t'
unfolding process_unlink process_switch_to_any process_switch Unlinked
unlink_cases process es none t' l h =
    let e = some-injective _ _ h in
    (
      ap (λ t. t.processes) (sym e),
      λ q. let clash : none ≡ some process = ap (λ t. t.current) e ∙ q in cc,
    )
unlink_cases process es (some c) t' l h = elim (ℕ_discrete c process) [
  | yes same ↦
      let h' = rw (same, ==_refl process) at h in
      elim (Option-cases (used_slot_from (set es process false) 0)) [
        | inl nobody ↦ let clash : none ≡ some t' = rw nobody at h' in cc
        | inr (i, found) ↦
            let e : ◌≡◌ {A = Table} (record { processes = set es process false; current = some i })
                t' =
              some-injective _ _ (rw found at h') in
            (
              ap (λ t. t.processes) (sym e),
              λ q.
                  unlinked_to_any process i es l found
                    (some-injective _ _ (ap (λ t. t.current) e ∙ q)),
            )
      ]
  | no ne ↦
      let e : ◌≡◌ {A = Table} (record { processes = set es process false; current = some c }) t' =
        some-injective _ _ (rw (==_ne c process ne) at h) in
      (ap (λ t. t.processes) (sym e), λ q. ne (some-injective _ _ (ap (λ t. t.current) e ∙ q)))
]

-- After `process_unlink` of a process its slot has none, every other slot is as before, and the
-- current process is another one.
pub process_unlink_lem :
    (process : ℕ) (t t' : Table)
    → process < length t.processes
    → process_unlink process t ≡ some t'
    → (process_get (pos process) t' ≡ none)
      × ((other : ℕ) → other ≢ process → process_get (pos other) t' ≡ process_get (pos other) t)
      × (t'.current ≢ some process)
unfolding process_get Unlinked
process_unlink_lem process t t' l h =
    let (slots, moved) = unlink_cases process t.processes t.current t' l h in
    (
      rw (slots, get_or-set_self t.processes process false false l) (ground arith),
      λ other ne. rw (slots, get_or-set_ne t.processes false false (λ e. ne (sym e))) refl,
      moved,
    )
