-- ===== src/Engine/Context/Counted.antt =====
-- The count of streams that the main thread reads is the number of players of the audio thread
-- (sqa-engine/src/thread.rs).
use sqa.Base.{
  ℕ, zero, suc, ◌-◌, ◌<◌, ◌≤◌, ◌≡◌, inl, inr, refl, sym, ap, ◌∙◌, subst, Bool, true, false, ◌||◌,
  Option, none, some, List, [], ◌∷◌, ◌++◌, length, get_elem?, arith, done, assert, >>=-eq-done,
  done-inj, panic-ne_done, Bool-cases, Option-cases, ltb, is_some, if◌then◌else◌, unwrap,
  length-append, length-set, lt-length_of_get_elem?,
}
use sqa.Base.Float.{FloatOps}
use sqa.Engine.{ArrayVec, ArrayVecLaws, Spsc, max_players}
use sqa.Engine.Sender.{Memory}
use sqa.Engine.Sync.{AudioThreadMessage, send, init}
use sqa.Engine.Thread.{
  DeviceContext, DeviceChannel, AudioThreadCommand, handle, pushed, added, place_channel,
}
use sqa.Engine.Thread.Players.{Player}
use sqa.Engine.Thread.Process.{
  JackCallbackContext, Callback, process_player, process_players, removed, lessen, remove_dead,
  message,
}
use sqa.Engine.Thread.Callbacks.{handle_next, process}
use sqa.Engine.Context.Ports.{length_le_of_none}
use sqa.Engine.Context.Callbacks.{Same, if-Same, process_players-Same, process_player-Same}

-- The count is right, and the players are not too many.
abbrev pub Counted : DeviceContext → Type 0
Counted d = (d.length ≡ length d.players) × (length d.players ≤ max_players)

-- A list that is not empty has a last element.
last_of {ℓ} :
    {A : Type ℓ} (x : A) (xs : List A) → (init : List A) × (last : A) × (x ∷ xs ≡ init ++ last ∷ [])
last_of x [] = ([], x, refl)
last_of x (y ∷ ys) = let (init, last, e) = last_of y ys in (x ∷ init, last, ap (x ∷◌) e)

module _ (v : ArrayVec) (laws : ArrayVecLaws v) where
  -- A removal at an index in range takes one element away and hands it back.
  swap_remove-length :
      {A : Type 0} (xs : List A) (i : ℕ)
      → i < length xs
      → (a : A) × ((v.swap_remove xs i).1 ≡ some a)
        × (suc (length (v.swap_remove xs i).0) ≡ length xs)
  swap_remove-length [] i h = absurd (omega arith)
  swap_remove-length {A} (x ∷ xs) i h =
      let (init, last, e) = last_of x xs in
      subst
        (λ (ys : List A).
          (a : A) × ((v.swap_remove ys i).1 ≡ some a)
          × (suc (length (v.swap_remove ys i).0) ≡ length ys))
        (sym e)
        (removed_from init last i (omega (arith, ap length e, h, length-append init (last ∷ []))))
    where
      removed_from :
          (init : List A) (last : A) (j : ℕ)
          → j < suc (length init)
          → (a : A) × ((v.swap_remove (init ++ last ∷ []) j).1 ≡ some a)
            × (suc (length (v.swap_remove (init ++ last ∷ []) j).0) ≡ length (init ++ last ∷ []))
      removed_from init last j g = elim (Option-cases (get_elem? init j)) [
        | inr (a, e) ↦ (
          a,
          rw (laws.swap_remove_some {A = A} init last j a e) refl,
          rw (laws.swap_remove_some {A = A} init last j a e)
              (omega (arith, length-set init j last, length-append init (last ∷ []))),
        )
        | inl e ↦
            let same : length init ≡ j = omega (arith, g, length_le_of_none init j e) in
            (
              last,
              rw (sym same, laws.swap_remove_last {A = A} init last) refl,
              rw (sym same, laws.swap_remove_last {A = A} init last)
                  (omega (arith, length-append init (last ∷ []))),
            )
      ]

  module _ (f : FloatOps) (q : Spsc) where
    pushed-Counted :
        (d d' : DeviceContext) (m m' : Memory) (p : Player)
        → Counted d
        → pushed v q d m p.uuid (v.push max_players d.players p) ≡ done (d', m')
        → Counted d'
    unfolding pushed added
    pushed-Counted d d' m m' p (n, b) h = elim (Bool-cases (ltb (length d.players) max_players)) [
      | inl room ↦
          let pushes = laws.push_room {A = Player} max_players d.players p (ground arith) in
          let h' = rw pushes at h in
          let (u, e, k) = >>=-eq-done (assert (ltb 0 (length (d.players ++ p ∷ [])))) _ h' in
          let (last, g, l) =
            >>=-eq-done
              (unwrap (get_elem? (d.players ++ p ∷ []) (length (d.players ++ p ∷ []) - 1))) _ k in
          subst Counted (ap (λ r. r.0) (done-inj l)) (
            omega (arith, n, length-append d.players (p ∷ [])),
            ground (arith, length-append d.players (p ∷ [])),
          )
      | inr full ↦
          let h' = rw (laws.push_full {A = Player} max_players d.players p (ground arith)) at h in
          subst Counted (ap (λ r. r.0) (done-inj h')) (n, b)
    ]

    place_channel-Counted :
        (d d' : DeviceContext) (ch : DeviceChannel) (r : List ℕ × Option ℕ)
        → Counted d
        → place_channel v q d ch r ≡ done d'
        → Counted d'
    unfolding place_channel
    place_channel-Counted d d' ch (holes, none) n h = subst Counted (done-inj h) n
    place_channel-Counted d d' ch (holes, some ix) n h =
        let (u, e, k) = >>=-eq-done (assert (ltb ix (length d.chans))) _ h in
        subst Counted (done-inj k) n

    handle-Counted :
        (d d' : DeviceContext) (m m' : Memory) (c : AudioThreadCommand)
        → Counted d
        → handle v q d m c ≡ done (d', m')
        → Counted d'
    unfolding handle
    handle-Counted d d' m m' (AudioThreadCommand.add_player p) n h = pushed-Counted d d' m m' p n h
    handle-Counted d d' m m' (AudioThreadCommand.add_channel port) n h =
        let (t, e, k) = >>=-eq-done (place_channel v q d _ (v.remove d.holes 0)) _ h in
        subst Counted (ap (λ r. r.0) (done-inj k)) (place_channel-Counted d t _ _ n e)
    handle-Counted d d' m m' (AudioThreadCommand.remove_channel idx) n h =
        subst Counted (ap (λ r. r.0) (done-inj h)) n

    handle_next-Counted :
        (d d' : DeviceContext) (m m' : Memory)
        (r : List AudioThreadCommand × Option AudioThreadCommand)
        → Counted d
        → handle_next f v q d m r ≡ done (d', m')
        → Counted d'
    unfolding handle_next
    handle_next-Counted d d' m m' (control, none) n h = subst Counted (ap (λ r. r.0) (done-inj h)) n
    handle_next-Counted d d' m m' (control, some c) n h =
        handle-Counted (record d { control = control }) d' m m' c n h

    -- A player that is found dead is one of the players.
    abbrev Within : Callback → Option ℕ → Type 0
    Within c o = (x : ℕ) → o ≡ some x → x < length c.dev.players

    Within-if :
        (c : Callback) (b : Bool) (o : Option ℕ) (i : ℕ)
        → Within c o
        → i < length c.dev.players
        → Within c (if b then o else some i)
    Within-if c true o i w g = w
    Within-if c false o i w g =
        λ x e. let p : i ≡ x = cc in subst (λ y. y < length c.dev.players) p g

    process_players-Within :
        (time n i : ℕ) (c c' : Callback) (o o' : Option ℕ)
        → process_players f v q time n i c o ≡ done (c', o')
        → Within c o
        → Within c' o'
    unfolding process_players
    process_players-Within time zero i c c' o o' h w =
        subst (λ (r : Callback × Option ℕ). Within r.0 r.1) (done-inj h) w
    process_players-Within time (suc n) i c c' o o' h w =
        elim (Option-cases (get_elem? c.dev.players i)) [
          | inl e ↦ absurd (panic-ne_done (rw (e, process_players) at h))
          | inr (p, e) ↦
              let (d, g, l) =
                >>=-eq-done
                  (if (c.mem.streams p.cells).alive
                    then process_player f v q time c i p
                    else done c)
                  _ (rw (e, process_players) at h) in
              let same =
                if-Same f v q c d (c.mem.streams p.cells).alive _ _
                  (process_player-Same f v q time c d i p)
                  (λ e'. subst (Same c) (done-inj e') (refl, refl, refl, refl)) g in
              let found =
                Within-if c ((c.mem.streams p.cells).alive || is_some o) o i w
                  (lt-length_of_get_elem? c.dev.players i e) in
              process_players-Within time n (suc i) d c' _ o' l (λ x u. rw same.3 (found x u))
        ]

    removed-some :
        (c : Callback) (r : List Player × Option Player) (a : Player)
        → r.1 ≡ some a
        → removed f v q c r ≡ record c {
          dev = record c.dev {
            players = r.0;
            sender = send q c.dev.sender (AudioThreadMessage.player_removed a);
          };
        }
    unfolding removed message send
    removed-some c (players, none) a e = cc
    removed-some c (players, some p) a e =
        let same : p ≡ a = cc in
        ap
          (λ (b : Player). record c {
            dev = record c.dev {
              players = players;
              sender = send q c.dev.sender (AudioThreadMessage.player_removed b);
            };
          })
          same

    -- Where the count of streams is right and the player found dead is one of the players, its removal
    -- does not panic on the count, and the count stays right.
    pub remove_dead-Counted :
        (c : Callback) (o : Option ℕ)
        → Counted c.dev
        → Within c o
        → (c' : Callback) × (remove_dead f v q c o ≡ done c') × Counted c'.dev
    unfolding remove_dead
    remove_dead-Counted c none n w = (c, refl, n)
    remove_dead-Counted c (some x) n w =
        let (a, e, s) = swap_remove-length c.dev.players x (w x refl) in
        let fewer : c.dev.length ≡ suc (length (v.swap_remove c.dev.players x).0) =
          omega (arith, s, n.0) in
        let rest = (v.swap_remove c.dev.players x).0 in
        (
          record c {
            dev = record c.dev {
              players = rest;
              length = length rest;
              sender = send q c.dev.sender (AudioThreadMessage.player_removed a);
            };
          },
          ap (lessen f v q) (removed-some c (v.swap_remove c.dev.players x) a e)
              ∙ rw (fewer, lessen) refl,
          (refl, omega (arith, s, n.1)),
        )

    -- A callback of the audio thread that returns keeps the count of streams, which the main thread
    -- reads, equal to the number of players, and that number within the limit.
    pub process-Counted :
        (time : ℕ) (d d' : DeviceContext) (m m' : Memory) (out out' : JackCallbackContext)
        (woken : Bool)
        → Counted d
        → process f v q time d m out ≡ done (d', m', out', woken)
        → Counted d'
    unfolding process init
    process-Counted time d d' m m' out out' woken n h =
        let begun : DeviceContext = record d { sender = init q d.sender time } in
        let (r, e, h1) = >>=-eq-done (handle_next f v q begun m (q.try_pop d.control)) _ h in
        let start : Callback = record { dev = r.0; mem = r.1; out = out } in
        let (found, g, h2) =
          >>=-eq-done (process_players f v q time (length r.0.players) 0 start none) _ h1 in
        let (c, k, h3) = >>=-eq-done (remove_dead f v q found.0 found.1) _ h2 in
        let handled = handle_next-Counted begun r.0 m r.1 (q.try_pop d.control) n e in
        let same =
          process_players-Same f v q time (length r.0.players) 0 start found.0 none found.1 g in
        let within =
          process_players-Within time (length r.0.players) 0 start found.0 none found.1 g
            (λ x u. absurd cc) in
        let kept : Counted found.0.dev = (same.2 ∙ handled.0 ∙ sym same.3, rw same.3 handled.1) in
        let (t, l, last) = remove_dead-Counted found.0 found.1 kept within in
        let same' : t ≡ c = done-inj (sym l ∙ k) in
        subst Counted (ap (λ x. x.0) (done-inj h3))
          (subst (λ (x : Callback). Counted x.dev) same' last)
