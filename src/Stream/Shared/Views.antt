-- ===== src/Stream/Shared/Views.antt =====
-- What a method of one stream does to the streams that share its block, and to all others.
use dklibrary.Common.{ℕ, ◌≤◌, ◌≡◌, ◌≢◌, sym, ap, ◌∙◌, arith, take, drop, take-take}
use dklibrary.StreamBuf.{StreamBuf}
use dklibrary.StreamBuf.Growth.{IsSound}
use dklibrary.Stream.{Stream}
use dklibrary.Stream.Valid.{IsValid, contents}
use dklibrary.Stream.Shared.{Handle, World, update, seen, view, put_back}

pub update_same : {A : Type 0} (f : ℕ → A) (i : ℕ) (a : A) → update f i a i ≡ a
update_same f i a = ground arith

pub update_other : {A : Type 0} (f : ℕ → A) (i j : ℕ) (a : A) → i ≢ j → update f i a j ≡ f j
update_other f i j a other = ground arith

module _ (i : ℕ) (s : Stream) (w : World) where
  -- The block of the stream, and what its object becomes.
  abbrev home : ℕ
  home = (w.objects i).block

  abbrev moved : Handle
  moved = record { read = s.read; written = s.written; block = home }

  abbrev changed : ℕ → StreamBuf
  changed = update w.blocks home s.buf

  -- The stream itself.
  pub view-put_back : view i (put_back i s w) ≡ s
  view-put_back =
      ap (seen changed) (update_same w.objects i moved)
      ∙ ap (λ b. record s { buf = b }) (update_same w.blocks home s.buf)

  module _ (j : ℕ) (other : i ≢ j) where
    unmoved : view j (put_back i s w) ≡ seen changed (w.objects j)
    unmoved = ap (seen changed) (update_other w.objects i j moved other)

    -- A stream with another block, and one that shares the block.
    pub view-put_back_apart : home ≢ (w.objects j).block → view j (put_back i s w) ≡ view j w
    view-put_back_apart apart =
        unmoved
        ∙ ap (λ b. record (view j w) { buf = b })
            (update_other w.blocks home (w.objects j).block s.buf apart)

    pub view-put_back_shared :
        home ≡ (w.objects j).block → view j (put_back i s w) ≡ record (view j w) { buf = s.buf }
    view-put_back_shared shared =
        unmoved
        ∙ ap (λ b. record (view j w) { buf = b })
            (ap changed (sym shared) ∙ update_same w.blocks home s.buf)

-- A stream that ends within the bytes that a change of the block keeps stays as it is.
pub kept_view :
    (s : Stream) (b : StreamBuf) (n : ℕ)
    → IsValid s
    → IsSound b
    → s.written ≤ n
    → n ≤ b.size
    → take n b.bytes ≡ take n s.buf.bytes
    → IsValid (record s { buf = b }) × (contents (record s { buf = b }) ≡ contents s)
kept_view s b n v sound within room kept =
    let cut : take s.written b.bytes ≡ take s.written s.buf.bytes =
      sym (take-take s.written n b.bytes within)
      ∙ ap (take s.written) kept
      ∙ take-take s.written n s.buf.bytes within in
    (record { order = v.order; room = omega arith; sound = sound }, ap (drop s.read) cut)
