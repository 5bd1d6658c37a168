-- ===== src/RateLimit/Window.antt =====
-- The deque of shared/rate_limiter.py against the whole history of grants.
use mathlib.Core.List.{append-nil, append_assoc}
use native.Mathlib.Nat.{le_refl}
use simple_claude_code_githu.Prelude.{
  ℕ, ◌+◌, ◌≤◌, ◌<◌, ◌≡◌, refl, sym, ap, ◌∙◌, ◌≢◌, inl, inr, true, false, List, [], ◌∷◌, ◌++◌, arith,
  length, length-append, All, ltb, if◌then◌else◌, Bool-cases, ltb→lt, ltb→ge,
}
use simple_claude_code_githu.RateLimit.Deque.{
  alive, in_window, alive-append, alive_antitone, alive_none, in_window-append, in_window-le-alive,
  drop-drop, drop_all, drop_snoc, drop-All, All-mono, All-snoc,
}
use simple_claude_code_githu.RateLimit.{
  Params, Verdict, acquired, timed_out, index_error, sleeping, Call, drop_expired, no_room, round,
  grants, grant,
}

-- The clock does not go back from one round to the next.
abbrev pub Ordered : ℕ → List Call → Type 0
Ordered last [] = Unit
Ordered last (c ∷ cs) = (last ≤ c.now) × Ordered c.now cs

-- The limiter that keeps every grant, and looks at those in the window.
pub sliding_log : Params → List Call → List ℕ → List ℕ
sliding_log p [] history = []
sliding_log p (c ∷ cs) history = elim (ltb (alive p.time_window c.now history) p.max_requests) [
  | true ↦ c.now ∷ sliding_log p cs (history ++ c.now ∷ [])
  | false ↦ sliding_log p cs history
]

-- The deque `q` stands for the history `h`, from the time `last` on.
record Tracks (window : ℕ) (h q : List ℕ) (last : ℕ) : Type 0 where
  past : All (λ x. x ≤ last) h
  queued : All (λ x. x ≤ last) q
  same : (now : ℕ) → last ≤ now → length (drop_expired window now q) ≡ alive window now h

module _ (window : ℕ) (h q : List ℕ) (last now : ℕ) (t : Tracks window h q last)
    (later : last ≤ now) where
  -- a round that grants nothing has dropped what expired
  pruned-Tracks : Tracks window h (drop_expired window now q) now
  pruned-Tracks = record {
    past = All-mono last now h later t.past;
    queued = drop-All window now now q (All-mono last now q later t.queued);
    same = λ n le. rw (drop-drop window now n q le) (t.same n (omega arith));
  }

  new_alive : (n : ℕ) → alive window n (now ∷ []) ≡ (if ltb n (now + window) then 1 else 0)
  unfolding alive
  new_alive n = omega arith

  -- a grant is in the deque and in the history for as long as it is in the window
  granted_same :
      (n : ℕ)
      → now ≤ n
      → length (drop_expired window n (drop_expired window now q ++ now ∷ []))
        ≡ alive window n (h ++ now ∷ [])
  granted_same n le = elim (Bool-cases (ltb n (now + window))) [
    | inl inside ↦ rw (drop_snoc window n now (drop_expired window now q) (ltb→lt _ _ inside)) (
        omega (
          arith,
          length-append (drop_expired window n (drop_expired window now q)) (now ∷ []),
          pruned-Tracks.same n le,
          alive-append window n h (now ∷ []),
          new_alive n ∙ ap (λ b. if b then 1 else 0) inside,
        ))
    | inr outside ↦
        let gone = ltb→ge _ _ outside in
        rw
          (drop_all window n now (drop_expired window now q ++ now ∷ [])
            (All-snoc now now _ (le_refl now) pruned-Tracks.queued) gone)
          (sym (
            alive_none window n now (h ++ now ∷ [])
              (All-snoc now now h (le_refl now) pruned-Tracks.past) gone))
  ]

  granted-Tracks : Tracks window (h ++ now ∷ []) (drop_expired window now q ++ now ∷ []) now
  granted-Tracks = record {
    past = All-snoc now now h (le_refl now) pruned-Tracks.past;
    queued = All-snoc now now _ (le_refl now) pruned-Tracks.queued;
    same = granted_same;
  }

-- A round that finds no room grants nothing and leaves the deque.
no_room-keeps :
    (p : Params) (c : Call) (q : List ℕ) → ((no_room p c q).0 ≢ acquired) × ((no_room p c q).1 ≡ q)
unfolding no_room
no_room-keeps p c q = ground arith

grant_none : (v : Verdict) (n : ℕ) (rest : List ℕ) → v ≢ acquired → grant v n rest ≡ rest
grant_none acquired n rest ne = absurd (ne refl)
grant_none timed_out n rest ne = refl
grant_none index_error n rest ne = refl
grant_none (sleeping w) n rest ne = refl

module _ (p : Params) (c : Call) (cs : List Call) (q : List ℕ) where
  grants_room :
      ltb (length (drop_expired p.time_window c.now q)) p.max_requests ≡ true
      → grants p (c ∷ cs) q ≡ c.now ∷ grants p cs (drop_expired p.time_window c.now q ++ c.now ∷ [])
  unfolding grants round
  grants_room e = rw e refl

  grants_full :
      ltb (length (drop_expired p.time_window c.now q)) p.max_requests ≡ false
      → grants p (c ∷ cs) q ≡ grants p cs (drop_expired p.time_window c.now q)
  unfolding grants round
  grants_full e =
      let (ne, kept) = no_room-keeps p c (drop_expired p.time_window c.now q) in
      rw e (grant_none _ c.now _ ne ∙ ap (grants p cs) kept)

sliding_log_room :
    (p : Params) (c : Call) (cs : List Call) (h : List ℕ)
    → ltb (alive p.time_window c.now h) p.max_requests ≡ true
    → sliding_log p (c ∷ cs) h ≡ c.now ∷ sliding_log p cs (h ++ c.now ∷ [])
unfolding sliding_log
sliding_log_room p c cs h e = rw (e, sliding_log) refl

sliding_log_full :
    (p : Params) (c : Call) (cs : List Call) (h : List ℕ)
    → ltb (alive p.time_window c.now h) p.max_requests ≡ false
    → sliding_log p (c ∷ cs) h ≡ sliding_log p cs h
unfolding sliding_log
sliding_log_full p c cs h e = rw (e, sliding_log) refl

refines :
    (p : Params) (cs : List Call) (h q : List ℕ) (last : ℕ)
    → Tracks p.time_window h q last
    → Ordered last cs
    → grants p cs q ≡ sliding_log p cs h
refines p [] h q last t o = unfold grants sliding_log in refl
refines p (c ∷ cs) h q last t o =
    elim (Bool-cases (ltb (alive p.time_window c.now h) p.max_requests)) [
      | inl room ↦
          rw (grants_room p c cs q (rw count room), sliding_log_room p c cs h room)
            (ap (λ l. c.now ∷ l)
              (refines p cs _ _ c.now (granted-Tracks p.time_window h q last c.now t o.0) o.1))
      | inr full ↦
          rw (grants_full p c cs q (rw count full), sliding_log_full p c cs h full)
            (refines p cs _ _ c.now (pruned-Tracks p.time_window h q last c.now t o.0) o.1)
    ]
  where
    count : length (drop_expired p.time_window c.now q) ≡ alive p.time_window c.now h
    count = t.same c.now o.0

empty-Tracks : (window : ℕ) → Tracks window [] [] 0
unfolding drop_expired alive
empty-Tracks window = record { past = tt; queued = tt; same = λ now le. refl }

-- For rounds on a clock that does not go back, whatever calls they belong to, the limiter that
-- keeps only a deque grants the same requests as the one that keeps every grant and lets a request
-- through exactly when fewer than `max_requests` of them are in the window that ends now.
pub grants-sliding_log :
    (p : Params) (cs : List Call) → Ordered 0 cs → grants p cs [] ≡ sliding_log p cs []
grants-sliding_log p cs o = refines p cs [] [] 0 (empty-Tracks p.time_window) o

-- the history so far keeps within the bound, and so does what is added to it
module _ (p : Params) where
  grown :
      (h : List ℕ) (now t : ℕ)
      → All (λ x. x ≤ now) h
      → alive p.time_window now h < p.max_requests
      → in_window p.time_window t h ≤ p.max_requests
      → in_window p.time_window t (h ++ now ∷ []) ≤ p.max_requests
  unfolding in_window
  grown h now t past room bound = ground (
    arith,
    in_window-append p.time_window t h (now ∷ []),
    in_window-le-alive p.time_window t h,
    alive_antitone p.time_window now t h,
  )

  within :
      (cs : List Call) (h : List ℕ) (last t : ℕ)
      → Ordered last cs
      → All (λ x. x ≤ last) h
      → ((u : ℕ) → in_window p.time_window u h ≤ p.max_requests)
      → in_window p.time_window t (h ++ sliding_log p cs h) ≤ p.max_requests
  within [] h last t o past bound = unfold sliding_log in rw (append-nil h) (bound t)
  within (c ∷ cs) h last t o past bound =
      elim (Bool-cases (ltb (alive p.time_window c.now h) p.max_requests)) [
        | inl room ↦
            rw
              (
                sliding_log_room p c cs h room,
                ← append_assoc h (c.now ∷ []) (sliding_log p cs (h ++ c.now ∷ [])),
              )
              (within cs (h ++ c.now ∷ []) c.now t o.1
                (All-snoc c.now c.now h (le_refl c.now) (older))
                (λ u. grown h c.now u older (ltb→lt _ _ room) (bound u)))
        | inr full ↦ rw (sliding_log_full p c cs h full) (within cs h c.now t o.1 older bound)
      ]
    where
      older : All (λ x. x ≤ c.now) h
      older = All-mono last c.now h o.0 past

  -- On a clock that does not go back, no window of the given length holds more than `max_requests`
  -- granted requests, wherever it ends.
  pub grants-in_window :
      (cs : List Call) (t : ℕ)
      → Ordered 0 cs
      → in_window p.time_window t (grants p cs []) ≤ p.max_requests
  unfolding in_window
  grants-in_window cs t o =
      rw (grants-sliding_log p cs o) (within cs [] 0 t o tt (λ u. omega arith))
