-- ===== src/Transport/Writer/Boundary.antt =====
-- Where the writer slot of src/transport.rs lets a coordinator pause the client's requests.
use kunobi_daemon.Common.{
  ◌||◌, ℕ, ◌+◌, ◌<◌, ◌≡◌, refl, sym, ◌∙◌, Bool, true, false, ◌&&◌, not, some, List, [], ◌∷◌, ◌++◌,
  ltb, ◌^◌, ◌==◌, if◌then◌else◌, if_either, length, length-append, arith, inl, inr, Bool-cases,
}
use mathlib.Core.List.{append_assoc, append-nil}
use kunobi_daemon.Transport.{WriteHalf}
use kunobi_daemon.Transport.Writer.{
  Slot, Call, parked, stuck, unsent, returned, ends_line, new, resume, try_pause, replace_paused,
  shutdown, close, write_flush, count_window, write_window, write_observed, resume_call,
}

-- What is documented of a writer: a whole write takes the bytes, and neither a flush nor a
-- half-close takes any.
pub record Faithful (W : Type 0) ⦃io : WriteHalf W⦄ : Type 0 where
  pub taken : W → List ℕ
  pub whole :
      (w : W) (bytes : List ℕ)
      → (io.write_all w bytes).1 ≡ true
      → taken (io.write_all w bytes).0 ≡ taken w ++ bytes
  pub flushed : (w : W) → taken (io.flush w).0 ≡ taken w
  pub shut : (w : W) → taken (io.shutdown_write w).0 ≡ taken w

-- What the threads and the coordinator do with a slot.
pub data Op (W : Type 0) : Type 0 where
  replaces : W → (written : ℕ) → Op W
  resumes : Op W
  pauses : (locked : Bool) → Op W
  shuts closes : Op W
  goes_on : (bytes : List ℕ) → Call → Op W

-- The slot, with what its connection had taken when it was installed, and the count it came with.
pub record Watched (W : Type 0) : Type 0 where
  pub slot : Slot W
  pub start : List ℕ
  pub offset : ℕ

-- No window is empty.
abbrev pub AllFilled : {W : Type 0} → List (Op W) → Type 0
AllFilled [] = Unit {0}
AllFilled (goes_on bytes call ∷ ops) = (0 < length bytes) × AllFilled ops
AllFilled (_ ∷ ops) = AllFilled ops

ends_line_nil : ends_line [] ≡ true
unfolding ends_line
ends_line_nil = refl

ends_line-append :
    (xs bytes : List ℕ) → 0 < length bytes → ends_line (xs ++ bytes) ≡ ends_line bytes
unfolding ends_line
ends_line-append [] bytes h = refl
ends_line-append (x ∷ []) [] h = absurd (omega (arith, h))
ends_line-append (x ∷ []) (b ∷ bytes) h = refl
ends_line-append (x ∷ y ∷ xs) bytes h = ends_line-append (y ∷ xs) bytes h

try_pause-some :
    {W : Type 0} (locked : Bool) (s : Slot W) (n : ℕ)
    → (try_pause locked s).1 ≡ some n
    → (s.failed ≡ false)
      × (s.ended ≡ false)
      × (s.closed ≡ false)
      × (s.at_boundary ≡ true)
      × (s.written ≡ n)
unfolding try_pause
try_pause-some locked s n e = ground arith

module _ {W : Type 0} ⦃io : WriteHalf W⦄ (f : Faithful W) where
  abbrev pub happens : Op W → Watched W → Watched W
  happens (replaces w written) v = if v.slot.closed then v else record {
    slot = (replace_paused w written v.slot).0;
    start = f.taken w;
    offset = written;
  }
  happens resumes v = record v { slot = resume v.slot }
  happens (pauses locked) v = record v { slot = (try_pause locked v.slot).0 }
  happens shuts v = record v { slot = (shutdown v.slot).0 }
  happens closes v = record v { slot = (close v.slot).0 }
  happens (goes_on bytes call) v = record v { slot = (resume_call bytes call v.slot).0 }

  abbrev pub happen : List (Op W) → Watched W → Watched W
  happen [] v = v
  happen (op ∷ ops) v = happen ops (happens op v)

  abbrev pub started : W → Watched W
  started w = record { slot = new w; start = f.taken w; offset = 0 }

  -- The windows that the connection has taken.
  Sent : Watched W → List ℕ → Type 0
  Sent v rest =
      (f.taken v.slot.writer ≡ v.start ++ rest)
      × (v.slot.written ≡ v.offset + length rest)
      × (v.slot.at_boundary ≡ ends_line rest)

  abbrev IsWhole : Watched W → Type 0
  IsWhole v = v.slot.failed ≡ false → (rest : List ℕ) × Sent v rest

  pub write_flush-taken :
      (w : W) (bytes : List ℕ)
      → (write_flush w bytes).1 ≡ true
      → f.taken (write_flush w bytes).0 ≡ f.taken w ++ bytes
  unfolding write_flush
  write_flush-taken w bytes h = elim (Bool-cases (io.write_all w bytes).1) [
    | inl e ↦ rw e (f.flushed (io.write_all w bytes).0 ∙ f.whole w bytes e)
    | inr e ↦ absurd (ground (arith, h, e))
  ]

  count_window-IsWhole :
      (bytes : List ℕ) (w : W) (v : Watched W)
      → 0 < length bytes
      → f.taken w ≡ f.taken v.slot.writer ++ bytes
      → IsWhole v
      → IsWhole (record v { slot = count_window bytes (record v.slot { writer = w }) })
  unfolding count_window Sent
  count_window-IsWhole bytes w v filled took h =
      elim (Bool-cases (ltb (v.slot.written + length bytes) (2 ^ 64))) [
        | inl e ↦ rw e (λ fine.
            let (rest, (t, n, b)) = h fine in
            (
              rest ++ bytes,
              (
                took ∙ (rw t (append_assoc v.start rest bytes)),
                omega (arith, n, length-append rest bytes),
                sym (ends_line-append rest bytes filled),
              ),
            ))
        | inr e ↦ rw e (λ fine. cc)
      ]

  write_window-IsWhole :
      (bytes : List ℕ) (v : Watched W)
      → 0 < length bytes
      → IsWhole v
      → IsWhole (record v { slot = (write_window bytes v.slot).0 })
  unfolding write_window
  write_window-IsWhole bytes v filled h = elim (Bool-cases (write_flush v.slot.writer bytes).1) [
    | inl e ↦ rw e (
        count_window-IsWhole bytes (write_flush v.slot.writer bytes).0 v filled
          (write_flush-taken v.slot.writer bytes e) h)
    | inr e ↦ rw e (λ fine. cc)
  ]

  write_observed-IsWhole :
      (bytes : List ℕ) (v : Watched W)
      → 0 < length bytes
      → IsWhole v
      → IsWhole (record v { slot = (write_observed bytes v.slot).0 })
  unfolding write_observed
  write_observed-IsWhole bytes v filled h =
      if_either (λ (r : Slot W × Call). IsWhole (record v { slot = r.0 }))
        (v.slot.paused && not v.slot.closed) (λ p. h)
        (λ p.
          if_either (λ (r : Slot W × Call). IsWhole (record v { slot = r.0 })) v.slot.closed
            (λ c. h) (λ c. write_window-IsWhole bytes v filled h))

  resume_call-IsWhole :
      (bytes : List ℕ) (call : Call) (v : Watched W)
      → 0 < length bytes
      → IsWhole v
      → IsWhole (record v { slot = (resume_call bytes call v.slot).0 })
  unfolding resume_call
  resume_call-IsWhole bytes parked v filled h = write_observed-IsWhole bytes v filled h
  resume_call-IsWhole bytes (stuck generation) v filled h =
      elim (Bool-cases (v.slot.generation == generation && not v.slot.closed)) [
        | inl e ↦ rw e h
        | inr e ↦ rw e h
      ]
  resume_call-IsWhole bytes unsent v filled h = h
  resume_call-IsWhole bytes returned v filled h = h

  replaced-IsWhole :
      (w : W) (written : ℕ) (v : Watched W) → IsWhole v → IsWhole (happens (replaces w written) v)
  unfolding replace_paused Sent
  replaced-IsWhole w written v h =
      if_either IsWhole v.slot.closed (λ c. h)
        (λ c.
          if_either
            (λ (r : Slot W × W).
              IsWhole (record { slot = r.0; start = f.taken w; offset = written }))
            v.slot.closed (λ d. absurd (cc))
            (λ d fine. (
              [],
              (
                installed v.slot.ended ∙ sym (append-nil (f.taken w)),
                omega arith,
                sym ends_line_nil,
              ),
            )))
    where
      installed :
          (ended : Bool) → f.taken (if ended then (io.shutdown_write w).0 else w) ≡ f.taken w
      installed true = f.shut w
      installed false = refl

  pauses-IsWhole : (locked : Bool) (v : Watched W) → IsWhole v → IsWhole (happens (pauses locked) v)
  unfolding try_pause Sent
  pauses-IsWhole locked v h =
      elim (Bool-cases (
        locked
        || (v.slot.paused
            || (v.slot.failed || (v.slot.ended || (v.slot.closed || not v.slot.at_boundary)))))) [
              | inl e ↦ rw e h
              | inr e ↦ rw e h
            ]

  shut-Sent :
      (v : Watched W) (rest : List ℕ)
      → Sent v rest
      → Sent
          (record v { slot = record v.slot { writer = (io.shutdown_write v.slot.writer).0 } })
          rest
  unfolding Sent
  shut-Sent v rest (t, n, b) = (f.shut v.slot.writer ∙ t, n, b)

  happens-IsWhole :
      (op : Op W) (v : Watched W) → AllFilled (op ∷ []) → IsWhole v → IsWhole (happens op v)
  happens-IsWhole (replaces w written) v filled h = replaced-IsWhole w written v h
  happens-IsWhole resumes v filled h = unfold resume Sent in h
  happens-IsWhole (pauses locked) v filled h = pauses-IsWhole locked v h
  happens-IsWhole shuts v filled h =
      unfold shutdown Sent in (λ fine. let (rest, s) = h fine in (rest, shut-Sent v rest s))
  happens-IsWhole closes v filled h =
      unfold close Sent in (λ fine. let (rest, s) = h fine in (rest, shut-Sent v rest s))
  happens-IsWhole (goes_on bytes call) v filled h = resume_call-IsWhole bytes call v filled.0 h

  happen-IsWhole :
      (ops : List (Op W)) (v : Watched W) → AllFilled ops → IsWhole v → IsWhole (happen ops v)
  happen-IsWhole [] v filled h = h
  happen-IsWhole (op ∷ ops) v filled h =
      happen-IsWhole ops (happens op v) (rest op ops filled)
        (happens-IsWhole op v (first op ops filled) h)
    where
      first : (op : Op W) (ops : List (Op W)) → AllFilled (op ∷ ops) → AllFilled (op ∷ [])
      first (goes_on bytes call) ops h = (h.0, tt)
      first (replaces w written) ops h = tt
      first resumes ops h = tt
      first (pauses locked) ops h = tt
      first shuts ops h = tt
      first closes ops h = tt

      rest : (op : Op W) (ops : List (Op W)) → AllFilled (op ∷ ops) → AllFilled ops
      rest (goes_on bytes call) ops h = h.1
      rest (replaces w written) ops h = h
      rest resumes ops h = h
      rest (pauses locked) ops h = h
      rest shuts ops h = h
      rest closes ops h = h

  -- After any history of replacements, pauses, half-closes and calls that write windows, none of them
  -- empty: a coordinator that pauses the slot has a connection that did not fail, is not half-closed
  -- and not closed; and what that connection has taken since it was installed is as long as the
  -- count that the coordinator gets says, and is nothing or ends with a newline.
  pub try_pause-Boundary :
      (w : W) (ops : List (Op W)) (locked : Bool) (n : ℕ)
      → AllFilled ops
      → let v : Watched W = happen ops (started w) in
        (try_pause locked v.slot).1 ≡ some n
        → (v.slot.failed ≡ false)
          × (v.slot.ended ≡ false)
          × (v.slot.closed ≡ false)
          × ((rest : List ℕ) × (f.taken v.slot.writer ≡ v.start ++ rest)
              × (n ≡ v.offset + length rest)
              × (ends_line rest ≡ true))
  unfolding Sent
  try_pause-Boundary w ops locked n filled e =
      let v : Watched W = happen ops (started w) in
      let (fine, going, open_still, boundary, counted) = try_pause-some locked v.slot n e in
      let (rest, (t, m, b)) =
        happen-IsWhole ops (started w) filled
          (λ new_one. ([], (sym (append-nil (f.taken w)), omega arith, sym ends_line_nil))) fine in
      (fine, going, open_still, (rest, t, sym counted ∙ m, sym b ∙ boundary))
