-- ===== src/Encoder/Fetching.antt =====
-- How decode of LibraryNet/Encoder.cpp takes a whole frame off the queue, with the size field in front.
use dklibrary.Common.{
  ℕ, ◌+◌, ◌≤◌, ◌<◌, ◌≡◌, refl, sym, ap, ◌∙◌, arith, Bool, true, false, List, ◌++◌, length, take,
  drop, returns, M, length-append, length-take, take-append_exact, drop-append_exact, le→leb,
  >>=-returns, ◌>>=◌, ◌>>◌, ret, if◌then◌else◌,
}
use dklibrary.StreamBuf.{Memory, max_alloc}
use dklibrary.Stream
use dklibrary.Stream.{Stream, store, create_stream, consume}
use dklibrary.Stream.Valid
use dklibrary.Stream.Valid.{create_stream-IsValid}
use dklibrary.Stream.Writing.{commit_lem, store-Appended, Grown}
use dklibrary.RecvQueue
use dklibrary.RecvQueue.{RecvQueue}
use dklibrary.RecvQueue.Valid.{IsValid, contents}
use dklibrary.RecvQueue.Peeking.{peek_queue_lem}
use dklibrary.RecvQueue.Popping.{pop_queue-enough, Popped-IsValid}
use dklibrary.RecvQueue.Detaching.{detachable_lem, detach_lem}
use dklibrary.Encoder.{Coding, on_stream, open_stream, copy_out, extract}

-- A stream with the first `n` bytes of the queue, and the queue with the others.
pub record Fetched (q : RecvQueue) (n : ℕ) (s : Stream) (q' : RecvQueue) : Type 0 where
  pub stream_valid : Valid.IsValid s
  pub fetched : Valid.contents s ≡ take n (contents q)
  pub queue_valid : IsValid q'
  pub remaining : contents q' ≡ drop n (contents q)

module _ ⦃memory : Memory⦄ where
  copied :
      (n : ℕ) (values : List ℕ)
      → length values ≡ n
      → n ≤ max_alloc
      → (t : Stream) × (Stream.commit n (store values (create_stream n)) ≡ returns tt t)
        × Valid.IsValid t
        × (Valid.contents t ≡ values)
  copied n values len small =
      let s = create_stream n in
      let (v, unread, room, start) = create_stream-IsValid n small in
      let grown : Grown s (length values) s = record {
        valid = v;
        same_read = refl;
        same_written = refl;
        fits = omega arith;
        kept = refl;
      } in
      let a = store-Appended s s values v grown in
      (
        record (store values s) { written = s.written + length values },
        commit_lem (store values s) n (omega arith) v.sound.bounded
            ∙ ap (λ k. returns tt (record (store values s) { written = s.written + k })) (sym len),
        a.valid,
        a.appended ∙ ap (λ bs. bs ++ values) unread,
      )

  copy_out_lem :
      (n : ℕ) (q : RecvQueue)
      → IsValid q
      → n ≤ length (contents q)
      → n ≤ max_alloc
      → (s : Stream) × (q' : RecvQueue) × (copy_out n q ≡ returns s q') × Fetched q n s q'
  unfolding copy_out
  copy_out_lem n q v fits small =
      let values = take n (contents q) in
      let seen : RecvQueue.peek n q ≡ returns values q =
        peek_queue_lem n q v ∙ rw (le→leb n (length (contents q)) fits) in
      let (s, ran, valid, holds) =
        copied n values (omega (arith, length-take n (contents q))) small in
      let (q', popped, p) = pop_queue-enough n q v fits in
      (
        s,
        q',
        >>=-returns (RecvQueue.peek n)
              (λ bytes. on_stream (Stream.commit n (store bytes (create_stream n))) >>= λ s'.
                RecvQueue.pop n >> ret s')
              q seen
            ∙ rw (ran, ◌>>=◌, ◌>>◌, popped),
        record {
          stream_valid = valid;
          fetched = holds;
          queue_valid = Popped-IsValid n q q' v p;
          remaining = p.remaining;
        },
      )

  -- Whether or not the front stream can be handed out as it is, the result is the same.
  fetch_lem :
      (b : Bool) (n : ℕ) (q : RecvQueue)
      → RecvQueue.detachable n q ≡ returns b q
      → IsValid q
      → n ≤ length (contents q)
      → n ≤ max_alloc
      → (s : Stream) × (q' : RecvQueue) × ((if b then RecvQueue.detach else copy_out n) q
          ≡ returns s q')
        × Fetched q n s q'
  fetch_lem true n q e v fits small =
      let (s, q', ran, valid, holds, rest, valid') = detach_lem n q v e in
      (
        s,
        q',
        ran,
        record { stream_valid = valid; fetched = holds; queue_valid = valid'; remaining = rest },
      )
  fetch_lem false n q e v fits small = copy_out_lem n q v fits small

-- Two runs with one outcome have one outcome when the same is run behind them.
pub >>=-same :
    {S A B : Type 0} (m k : M S A) (f : A → M S B) (s t : S) → m s ≡ k t → (m >>= f) s ≡ (k >>= f) t
>>=-same m k f s t h = rw (◌>>=◌, h)

module _ ⦃memory : Memory⦄ (c : Coding) (payload rest : List ℕ) (q : RecvQueue)
    (v : IsValid q) where
  pub extract_lem :
      (field : List ℕ)
      → length field ≡ 4
      → contents q ≡ field ++ (payload ++ rest)
      → 0 < length payload
      → length payload ≤ max_alloc
      → (s : Stream) × (q' : RecvQueue) × (extract c (length payload) q
          ≡ on_stream (open_stream c s) q')
        × Valid.IsValid s
        × (Valid.contents s ≡ payload)
        × IsValid q'
        × (contents q' ≡ rest)
  unfolding extract
  extract_lem field len e some_left small =
      let n = length payload in
      let total = length-append field (payload ++ rest) in
      let total' = length-append payload rest in
      let (q1, popped, p) = pop_queue-enough 4 q v (omega (arith, ap length e, total)) in
      let v1 = Popped-IsValid 4 q q1 v p in
      let e1 : contents q1 ≡ payload ++ rest =
        p.remaining ∙ ap (drop 4) e ∙ rw (← len) (drop-append_exact field (payload ++ rest)) in
      let (b, tested) = detachable_lem n q1 (omega (arith, ap length e1, total')) in
      let (s, q', fetched, f) =
        fetch_lem b n q1 tested v1 (omega (arith, ap length e1, total')) small in
      let rest_of = λ (whole : Bool).
        (if whole then RecvQueue.detach else copy_out n) >>= λ s'. on_stream (open_stream c s') in
      (
        s,
        q',
        >>=-returns (RecvQueue.pop 4) (λ _. RecvQueue.detachable n >>= rest_of) q popped
            ∙ >>=-returns (RecvQueue.detachable n) rest_of q1 tested
            ∙ >>=-returns (if b then RecvQueue.detach else copy_out n)
                (λ s'. on_stream (open_stream c s')) q1 fetched,
        f.stream_valid,
        f.fetched ∙ ap (take n) e1 ∙ take-append_exact payload rest,
        f.queue_valid,
        f.remaining ∙ ap (drop n) e1 ∙ drop-append_exact payload rest,
      )
