-- ===== src/Stream/Copy/Pairs/Carries.antt =====
-- What `Duplex.Run` delivers in both directions (internal/stream/duplex.go).
use mathlib.Core.List.{flatten}
use mhp.Prelude.{ℕ, ◌+◌, ◌^◌, ◌<◌, ◌≡◌, refl, Option, none, some, List, [], length, Bytes, pos}
use mhp.Errors.{Error}
use mhp.Stream.Duplex.{Kind, copier, Conn, Finished, run}
use mhp.Stream.Copy.{CounterConn, copy, Direction, work}
use mhp.Stream.Copy.Pairs.{Moment, carry}
use mhp.Stream.Copy.Pairs.Clean.{Fine, Fine-map, run-Fine, none_sent}
use mhp.Stream.Copy.Delivers.{Complete, Delivered, copy-Delivered}

copier-none : (kind : Kind) (e answer : Option Error) → copier kind e answer ≡ none → e ≡ none
unfolding copier
copier-none kind none answer h = refl
copier-none kind (some e) answer h = cc

Complete-whatever :
    (left : Bytes) (end_error returned : Option Error)
    → (left ≡ []) × (end_error ≡ none)
    → Complete returned left end_error
Complete-whatever left end_error none h = h
Complete-whatever left end_error (some e) h = tt

-- A direction in which a part was delivered, and all of it where `Run` returned nil.
Delivered-Fine :
    (payload before : Bytes) (n : ℕ) (end_error copied returned : Option Error) (c : CounterConn)
    → Delivered payload before n end_error (copied, c)
    → Fine (copied ≡ none) returned
    → Delivered payload before n end_error (returned, c)
Delivered-Fine payload before n end_error none returned c d h = record {
  done = d.done;
  left = d.left;
  parts = d.parts;
  output = d.output;
  count = d.count;
  all = Complete-whatever d.left end_error returned d.all;
}
Delivered-Fine payload before n end_error (some e) none c d h = cc
Delivered-Fine payload before n end_error (some e) (some f) c d h = record {
  done = d.done;
  left = d.left;
  parts = d.parts;
  output = d.output;
  count = d.count;
  all = tt;
}

carry-Fine :
    (inbound outbound : Conn) (up down : Direction) (moments : List Moment) (f : Finished)
    → (carry inbound outbound up down moments).finished ≡ some f
    → Fine (((work up).0 ≡ none) × ((work down).0 ≡ none)) f.error
unfolding carry run
carry-Fine inbound outbound up down moments f h =
    run-Fine inbound outbound (work up).0 (work down).0 _ f h
      (none_sent (work up).0 (work down).0 moments)

work-Delivered :
    (d : Direction) (n : ℕ) (returned : Option Error)
    → d.target.n ≡ pos n
    → n + length (flatten d.source.chunks) < 2 ^ 63
    → Fine ((work d).0 ≡ none) returned
    → Delivered
        (flatten d.source.chunks)
        d.target.conn.output
        n
        d.source.end_error
        (returned, (work d).1)
unfolding work
work-Delivered d n returned hn bn fine =
    let (e, x) = copy d.source.chunks d.source.end_error d.target in
    Delivered-Fine _ _ n d.source.end_error e returned x
      (copy-Delivered d.source.chunks d.source.end_error d.target n hn bn)
      (Fine-map _ _ returned (λ w. copier-none d.kind e d.close_answer w) fine)

-- What `Run` delivers from the inbound to the outbound connection.
pub carry-up :
    (inbound outbound : Conn) (up down : Direction) (moments : List Moment) (n : ℕ) (f : Finished)
    → up.target.n ≡ pos n
    → n + length (flatten up.source.chunks) < 2 ^ 63
    → (carry inbound outbound up down moments).finished ≡ some f
    → Delivered
        (flatten up.source.chunks)
        up.target.conn.output
        n
        up.source.end_error
        (f.error, (carry inbound outbound up down moments).up)
unfolding carry
carry-up inbound outbound up down moments n f hn bn h =
    work-Delivered up n f.error hn bn
      (Fine-map _ _ f.error (λ w. w.0) (carry-Fine inbound outbound up down moments f h))

-- What `Run` delivers from the outbound to the inbound connection.
pub carry-down :
    (inbound outbound : Conn) (up down : Direction) (moments : List Moment) (m : ℕ) (f : Finished)
    → down.target.n ≡ pos m
    → m + length (flatten down.source.chunks) < 2 ^ 63
    → (carry inbound outbound up down moments).finished ≡ some f
    → Delivered
        (flatten down.source.chunks)
        down.target.conn.output
        m
        down.source.end_error
        (f.error, (carry inbound outbound up down moments).down)
unfolding carry
carry-down inbound outbound up down moments m f hm bm h =
    work-Delivered down m f.error hm bm
      (Fine-map _ _ f.error (λ w. w.1) (carry-Fine inbound outbound up down moments f h))

-- `Run` over two directions whose counters stand at `n` and `m` and do not wrap around on what comes:
-- whatever each Write takes, and whichever way the copies and `Run` end, each destination is extended
-- by a prefix of what the other side sent, and its counter by the length. When `Run` returned nil,
-- both prefixes are all of it, and both sources ended at EOF.
pub carry-Delivered :
    (inbound outbound : Conn) (up down : Direction) (moments : List Moment) (n m : ℕ) (f : Finished)
    → up.target.n ≡ pos n
    → n + length (flatten up.source.chunks) < 2 ^ 63
    → down.target.n ≡ pos m
    → m + length (flatten down.source.chunks) < 2 ^ 63
    → (carry inbound outbound up down moments).finished ≡ some f
    → Delivered
        (flatten up.source.chunks)
        up.target.conn.output
        n
        up.source.end_error
        (f.error, (carry inbound outbound up down moments).up)
      × Delivered
          (flatten down.source.chunks)
          down.target.conn.output
          m
          down.source.end_error
          (f.error, (carry inbound outbound up down moments).down)
unfolding carry
carry-Delivered inbound outbound up down moments n m f hn bn hm bm h = (
  carry-up inbound outbound up down moments n f hn bn h,
  carry-down inbound outbound up down moments m f hm bm h,
)
