-- ===== src/Lock/Exclusive.antt =====
-- Who holds a lock of Control-DB/zerotrace/store/kv.py, whatever the other writers do.
use zero_trace.Prelude.{
  ℕ, ◌+◌, ◌<◌, String, ◌≡◌, refl, ap, ◌∙◌, inl, inr, true, false, none, some, List, [], ◌∷◌, All,
  arith, ltb, lt→ltb, str_eq, str_eq_refl, eq_iff, Bool-cases, Option-cases,
}
use zero_trace.Cache.Lru.{find, without}
use zero_trace.Cache.Keys.{find-without-same}
use zero_trace.Lock.Leases.{
  Locks, hold, acquire, release, Command, acquires, releases, perform, run,
}

find-without-other :
    {A : Type 0} (j k : String) (es : List (String × A))
    → str_eq j k ≡ false
    → find k (without j es) ≡ find k es
unfolding find without
find-without-other j k [] h = refl
find-without-other j k ((i, a) ∷ es) h = elim (Bool-cases (str_eq i j)) [
  | inl same ↦
      let apart : str_eq i k ≡ false = ap (λ x. str_eq x k) ((eq_iff i j).0 same) ∙ h in
      rw (without, find, same, apart) (find-without-other j k es h)
  | inr other ↦ elim (Bool-cases (str_eq i k)) [
    | inl hit ↦ rw (without, find, other, hit)
    | inr miss ↦ rw (without, find, other, miss) (find-without-other j k es h)
  ]
]

-- The hold of another key is not touched.
find-hold :
    (j k token : String) (until : ℕ) (locks : Locks)
    → str_eq j k ≡ false
    → find k (hold j token until locks) ≡ find k locks
unfolding find hold
find-hold j k token until locks h = rw (find, h) (find-without-other j k locks h)

find-hold_same :
    (key token : String) (until : ℕ) (locks : Locks)
    → find key (hold key token until locks) ≡ some (token, until)
unfolding find hold
find-hold_same key token until locks = rw (str_eq_refl key)

lost : false ≡ true → ⊥
lost e = ground arith

-- A command that may come while the token holds the key: it takes place before the hold ends, and it
-- does not release the token's own hold.
abbrev pub IsOthers : String → String → ℕ → Command → Type 0
IsOthers key token until (acquires now k w ttl) = now < until
IsOthers key token until (releases k w) = (str_eq k key ≡ true) → (str_eq token w ≡ false)

acquire-Holds :
    (now ttl : ℕ) (k w key token : String) (until : ℕ) (locks : Locks)
    → find key locks ≡ some (token, until)
    → now < until
    → find key (acquire now k w ttl locks).1 ≡ some (token, until)
unfolding acquire
acquire-Holds now ttl k w key token until locks held early = elim (Bool-cases (str_eq k key)) [
  | inl same ↦
      let mine : find k locks ≡ some (token, until) =
        ap (λ x. find x locks) ((eq_iff k key).0 same) ∙ held in
      rw (acquire, mine, lt→ltb now until early) held
  | inr other ↦
      let moved = find-hold k key w (now + ttl) locks other ∙ held in
      elim (Option-cases (find k locks)) [
        | inl free ↦ rw (acquire, free) moved
        | inr ((holder, end), taken) ↦ elim (Bool-cases (ltb now end)) [
          | inl kept ↦ rw (acquire, taken, kept) held
          | inr over ↦ rw (acquire, taken, over) moved
        ]
      ]
]

release-Holds :
    (k w key token : String) (until : ℕ) (locks : Locks)
    → find key locks ≡ some (token, until)
    → ((str_eq k key ≡ true) → (str_eq token w ≡ false))
    → find key (release k w locks) ≡ some (token, until)
unfolding release
release-Holds k w key token until locks held keeps = elim (Bool-cases (str_eq k key)) [
  | inl same ↦
      let mine : find k locks ≡ some (token, until) =
        ap (λ x. find x locks) ((eq_iff k key).0 same) ∙ held in
      rw (release, mine, keeps same) held
  | inr other ↦
      let moved = find-without-other k key locks other ∙ held in
      elim (Option-cases (find k locks)) [
        | inl free ↦ rw (release, free) held
        | inr ((holder, end), taken) ↦ elim (Bool-cases (str_eq holder w)) [
          | inl own ↦ rw (release, taken, own) moved
          | inr other_ ↦ rw (release, taken, other_) held
        ]
      ]
]

perform-Holds :
    (c : Command) (key token : String) (until : ℕ) (locks : Locks)
    → find key locks ≡ some (token, until)
    → IsOthers key token until c
    → find key (perform c locks) ≡ some (token, until)
unfolding perform
perform-Holds (acquires now k w ttl) key token until locks held early =
    acquire-Holds now ttl k w key token until locks held early
perform-Holds (releases k w) key token until locks held keeps =
    release-Holds k w key token until locks held keeps

run-Holds :
    (cs : List Command) (key token : String) (until : ℕ) (locks : Locks)
    → find key locks ≡ some (token, until)
    → All (IsOthers key token until) cs
    → find key (run cs locks) ≡ some (token, until)
unfolding run
run-Holds [] key token until locks held others = held
run-Holds (c ∷ cs) key token until locks held (o, others) =
    run-Holds cs key token until (perform c locks) (perform-Holds c key token until locks held o)
      others

-- An acquire that answers true holds the key for its time to live.
acquire-held :
    (now ttl : ℕ) (key token : String) (locks : Locks)
    → (acquire now key token ttl locks).0 ≡ true
    → find key (acquire now key token ttl locks).1 ≡ some (token, now + ttl)
unfolding acquire
acquire-held now ttl key token locks e =
    let mine : find key (hold key token (now + ttl) locks) ≡ some (token, now + ttl) =
      find-hold_same key token (now + ttl) locks in
    elim (Option-cases (find key locks)) [
      | inl free ↦ rw (acquire, free) mine
      | inr ((holder, end), taken) ↦ elim (Bool-cases (ltb now end)) [
        | inl kept ↦ absurd (lost (rw (acquire, taken, kept) at e))
        | inr over ↦ rw (acquire, taken, over) mine
      ]
    ]

-- From when a writer is given a key to the end of its time to live, whatever commands come, of any
-- writers on any keys, as long as its own token does not release the key: another acquire of the key
-- is refused and changes nothing, and then the writer's own release lets the next acquire in.
pub run-Exclusive :
    (start ttl now more : ℕ) (key token other : String) (cs : List Command) (locks : Locks)
    → (acquire start key token ttl locks).0 ≡ true
    → All (IsOthers key token (start + ttl)) cs
    → now < start + ttl
    → let after = run cs (acquire start key token ttl locks).1 in
      (acquire now key other more after ≡ (false, after))
      × ((acquire now key other more (release key token after)).0 ≡ true)
unfolding acquire release
run-Exclusive start ttl now more key token other cs locks given others early =
    let after = run cs (acquire start key token ttl locks).1 in
    let held : find key after ≡ some (token, start + ttl) =
      run-Holds cs key token (start + ttl) (acquire start key token ttl locks).1
        (acquire-held start ttl key token locks given) others in
    let gone : find key (without key after) ≡ none = find-without-same key after in
    (
      rw (acquire, held, lt→ltb now (start + ttl) early),
      rw (release, held, str_eq_refl token, acquire, gone),
    )
