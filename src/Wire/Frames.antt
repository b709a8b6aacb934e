-- ===== src/Wire/Frames.antt =====
-- What is sent through the framing of src/wire.rs is received, and what fails stays failed.
use kunobi_daemon.Common.{
  ◌||◌, ℕ, zero, suc, ◌≤◌, ◌<◌, ◌≡◌, refl, sym, ap, ◌∙◌, ◌⊎◌, true, false, not, some, List, [], ◌∷◌,
  ◌++◌, arith, Result, ok, err, length, take-length_append, drop-length_append, append-cancel_left,
  length-append, ltb, leb, ◌==◌,
}
use mathlib.Core.List.{append_assoc, append-nil}
use kunobi_daemon.Wire.{max_frame}
use kunobi_daemon.Wire.Framing.{
  Codec, FrameError, session_failed, Framed, Method, ◌>>=◌, ◌>>◌, return, after, write_all,
  read_exact, to_le_bytes, from_le_bytes, encode_frame, send, receive,
}

-- A length survives its four bytes.
from_le_bytes-to_le_bytes : (n : ℕ) → n < 4_294_967_296 → from_le_bytes (to_le_bytes n) ≡ n
from_le_bytes-to_le_bytes n h = omega arith

pub read_exact-append :
    (f : Framed) (xs rest : List ℕ) (n : ℕ)
    → n ≡ length xs
    → f.io.incoming ≡ xs ++ rest
    → read_exact n f ≡ (record f { io = record (f.io) { incoming = rest } }, ok xs)
unfolding read_exact
read_exact-append f xs rest n e h =
    rw (e, h, lt_test, drop-length_append xs rest, take-length_append xs rest) refl
  where
    lt_test : leb (length xs) (length (xs ++ rest)) ≡ true
    lt_test = ground (arith, length-append xs rest)

-- A chain that succeeds has a first part that does.
after-ok :
    {A B : Type 0} (r : Framed × Result FrameError A) (k : A → Method B) (f' : Framed) (b : B)
    → after r k ≡ (f', ok b)
    → (g : Framed) × (a : A) × (r ≡ (g, ok a)) × (k a g ≡ (f', ok b))
after-ok (g, ok a) k f' b e = (g, a, refl, e)
after-ok (g, err x) k f' b e = cc

module _ {M : Type 0} (codec : Codec M) where
  -- A message that fits a limit.
  abbrev pub Fits : M → ℕ → Type 0
  Fits m limit = (0 < length (codec.encode m)) × (length (codec.encode m) ≤ limit)

  abbrev pub frame_of : M → List ℕ
  frame_of m = to_le_bytes (length (codec.encode m)) ++ codec.encode m

  encode_frame-ok :
      (m : M) (limit : ℕ) (frame : List ℕ)
      → encode_frame codec m limit ≡ ok frame
      → Fits m limit × (frame ≡ frame_of m)
  unfolding encode_frame
  encode_frame-ok m limit frame e = ground arith

  -- A frame is received as the message, and the bytes behind it are left alone.
  pub receive-frame :
      (g : Framed) (m : M) (rest : List ℕ)
      → g.failed ≡ false
      → g.limit ≤ max_frame
      → Fits m g.limit
      → codec.decode (codec.encode m) g.limit ≡ some m
      → g.io.incoming ≡ frame_of m ++ rest
      → receive codec g ≡ (record g { io = record (g.io) { incoming = rest } }, ok m)
  unfolding receive
  receive-frame g m rest live small fits decodes e =
      rw
        (
          live,
          read_exact-append (record g { failed = true }) (to_le_bytes n) (codec.encode m ++ rest) 4
              refl framed,
          from_le_bytes-to_le_bytes n (omega arith),
          within,
          read_exact-append
              (record {
                io = record (g.io) { incoming = codec.encode m ++ rest };
                limit = g.limit;
                failed = true;
              })
              (codec.encode m) rest n refl refl,
          decodes,
        )
        refl
    where
      n : ℕ
      n = length (codec.encode m)

      framed : g.io.incoming ≡ to_le_bytes n ++ (codec.encode m ++ rest)
      framed = e ∙ append_assoc (to_le_bytes n) (codec.encode m) rest

      within : (not (n == 0 || ltb g.limit n)) ≡ true
      within = ground arith

  -- What a successful send has done.
  send-ok :
      (f f' : Framed) (m : M)
      → send codec m f ≡ (f', ok tt)
      → Fits m f.limit
        × (f'.io.outgoing ≡ f.io.outgoing ++ frame_of m)
        × (f'.failed ≡ false)
        × (f'.limit ≡ f.limit)
  unfolding send write_all encode_frame
  send-ok f f' m e = ground arith

  unfoldable pub send_all : List M → Method (Unit {0})
  send_all [] f = (f, ok tt)
  send_all (m ∷ ms) f = (do send codec m; send_all ms) f

  unfoldable pub receive_all : ℕ → Method (List M)
  receive_all zero f = (f, ok [])
  receive_all (suc n) f = (do m ← receive codec; ms ← receive_all n; return (m ∷ ms)) f

  abbrev frames_of : List M → List ℕ
  frames_of [] = []
  frames_of (m ∷ ms) = frame_of m ++ frames_of ms

  abbrev pub AllDecode : ℕ → List M → Type 0
  AllDecode limit [] = Unit {0}
  AllDecode limit (m ∷ ms) = (codec.decode (codec.encode m) limit ≡ some m) × AllDecode limit ms

  abbrev AllFit : ℕ → List M → Type 0
  AllFit limit [] = Unit {0}
  AllFit limit (m ∷ ms) = Fits m limit × AllFit limit ms

  send_all-ok :
      (f f' : Framed) (ms : List M)
      → send_all ms f ≡ (f', ok tt)
      → AllFit f.limit ms × (f'.io.outgoing ≡ f.io.outgoing ++ frames_of ms)
  unfolding send_all
  send_all-ok f f' [] e = (
    tt,
    rw append-nil (ap (λ (r : Framed × Result FrameError (Unit {0})). r.0.io.outgoing) (sym e)),
  )
  send_all-ok f f' (m ∷ ms) e =
      let (g, a, first, later) = after-ok (send codec m f) (λ _. send_all ms) f' tt e in
      let (fits, written, live, same) = send-ok f g m first in
      let (fit, more) = send_all-ok g f' ms later in
      (
        (fits, rw same at fit),
        more
            ∙ ap (λ (z : List ℕ). z ++ frames_of ms) written
            ∙ append_assoc f.io.outgoing (frame_of m) (frames_of ms),
      )

  receive_all-frames :
      (g : Framed) (ms : List M) (rest : List ℕ)
      → g.failed ≡ false
      → g.limit ≤ max_frame
      → AllFit g.limit ms
      → AllDecode g.limit ms
      → g.io.incoming ≡ frames_of ms ++ rest
      → receive_all (length ms) g ≡ (record g { io = record (g.io) { incoming = rest } }, ok ms)
  unfolding receive_all
  receive_all-frames g [] rest live small fits decodes e = rw (← e) refl
  receive_all-frames g (m ∷ ms) rest live small fits decodes e =
      rw
        (
          receive-frame g m (frames_of ms ++ rest) live small fits.0 decodes.0 shape,
          receive_all-frames (record g { io = record (g.io) { incoming = frames_of ms ++ rest } })
              ms rest live small fits.1 decodes.1 refl,
        )
        refl
    where
      shape : g.io.incoming ≡ frame_of m ++ (frames_of ms ++ rest)
      shape = e ∙ append_assoc (frame_of m) (frames_of ms) rest

  -- What one side sends in any number of messages, the other side receives in the same order,
  -- whatever bytes follow, and those are left unread. The receiver has the same frame limit, at
  -- most the protocol's, and the codec decodes under it what it encodes of these messages.
  pub receive_all-send_all :
      (f f' g : Framed) (ms : List M) (sent rest : List ℕ)
      → send_all ms f ≡ (f', ok tt)
      → f'.io.outgoing ≡ f.io.outgoing ++ sent
      → g.io.incoming ≡ sent ++ rest
      → g.failed ≡ false
      → g.limit ≡ f.limit
      → f.limit ≤ max_frame
      → AllDecode f.limit ms
      → receive_all (length ms) g ≡ (record g { io = record (g.io) { incoming = rest } }, ok ms)
  receive_all-send_all f f' g ms sent rest e out inp live same small decodes =
      let (fit, written) = send_all-ok f f' ms e in
      let frames : sent ≡ frames_of ms =
        append-cancel_left f.io.outgoing sent (frames_of ms) (sym out ∙ written) in
      receive_all-frames g ms rest live (rw same small) (rw same fit) (rw same decodes)
        (inp ∙ ap (λ (z : List ℕ). z ++ rest) frames)

  receive_fails :
      (f : Framed) (x : FrameError)
      → (receive codec f).1 ≡ err x
      → (receive codec f).0.failed ≡ true
  unfolding receive read_exact
  receive_fails f x e = ground arith

  receive_dead : (f : Framed) → f.failed ≡ true → receive codec f ≡ (f, err session_failed)
  unfolding receive
  receive_dead f h = ground arith

  send_dead : (f : Framed) (m : M) → f.failed ≡ true → send codec m f ≡ (f, err session_failed)
  unfolding send
  send_dead f m h = ground arith

  -- A receive that fails, for whatever reason, leaves a session on which no later receive or send
  -- does anything.
  pub receive_error_final :
      (f : Framed) (x : FrameError) (m : M)
      → (receive codec f).1 ≡ err x
      → (receive codec (receive codec f).0 ≡ ((receive codec f).0, err session_failed))
        × (send codec m (receive codec f).0 ≡ ((receive codec f).0, err session_failed))
  receive_error_final f x m e =
      let dead : (receive codec f).0.failed ≡ true = receive_fails f x e in
      (receive_dead (receive codec f).0 dead, send_dead (receive codec f).0 m dead)

  -- A send that fails either has written nothing and leaves the session as it was, because the
  -- message has no frame or the session had failed before, or leaves the session failed.
  pub send_error :
      (f : Framed) (m : M) (x : FrameError)
      → (send codec m f).1 ≡ err x
      → ((send codec m f).0 ≡ f) ⊎ ((send codec m f).0.failed ≡ true)
  unfolding send encode_frame write_all
  send_error f m x e = ground arith
