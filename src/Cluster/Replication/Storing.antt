-- ===== src/Cluster/Replication/Storing.antt =====
-- The test of the window and the assignment of sequence numbers.
use Prim.Native.Nat.{◌≤◌}
use go_cluster.Prelude.{
  ℕ, zero, suc, ◌+◌, ◌-◌, ◌^◌, ◌<◌, Text, ◌==◌, nat_eq, text_is_eq, text_eq_iff, true, ◌&&◌, some,
  [], ◌≡◌, arith, ltb, if◌then◌else◌, or_zero,
}
use go_cluster.Prelude.Int.{ℤ, pos, negsuc, inc_u64}
use go_cluster.GoMap.{lookup, insert, lookup-insert}
use go_cluster.Cluster.World.{Rep}
use go_cluster.Cluster.Disk.Restored.{buffered, last_seq, IsCovered}
use go_cluster.Cluster.Replication.{has_room, store_message}

-- With acknowledgements behind the sequence number, and the number below 2^63, there is room
-- exactly while fewer than `n` messages, the window, are not acknowledged. A window that is not
-- positive stands for 1024.
pub has_room_lem :
    (window cur min_ack n : ℕ)
    → min_ack ≤ cur
    → cur < 2 ^ 63
    → (if ltb 0 window then window else 1024) ≡ n
    → has_room (pos window) cur min_ack ≡ ltb (cur - min_ack) n
unfolding has_room
has_room_lem zero cur min_ack n le small e = ground arith
has_room_lem (suc k) cur min_ack n le small e = ground arith

-- With acknowledgements ahead of the sequence number, and below 2^63, the difference wraps to a
-- negative int, and there is room however small the window is.
pub has_room-ahead :
    (window : ℤ) (cur min_ack : ℕ)
    → cur < min_ack
    → min_ack < 2 ^ 63
    → has_room window cur min_ack ≡ true
unfolding has_room
has_room-ahead (pos zero) cur min_ack lt small = ground arith
has_room-ahead (pos (suc n)) cur min_ack lt small = ground arith
has_room-ahead (negsuc n) cur min_ack lt small = ground arith

buffered-store_message :
    (topic t : Text) (n : ℕ) (body : Text) (r : Rep)
    → buffered t n (store_message topic body r).1 ≡ (
        if topic == t
        then (if inc_u64 (last_seq topic r) == n then some body else buffered t n r)
        else buffered t n r)
unfolding store_message
buffered-store_message topic t n body r = ground (
  arith,
  text_eq_iff topic t,
  lookup-insert topic t (insert (inc_u64 (last_seq topic r)) body (or_zero [] (lookup topic r.buf)))
      r.buf,
  lookup-insert (inc_u64 (last_seq topic r)) n body (or_zero [] (lookup topic r.buf)),
)

pub last_seq-store_message :
    (topic t body : Text) (r : Rep)
    → last_seq t (store_message topic body r).1
      ≡ (if topic == t then inc_u64 (last_seq topic r) else last_seq t r)
unfolding store_message
last_seq-store_message topic t body r =
    ground (arith, text_eq_iff topic t, lookup-insert topic t (inc_u64 (last_seq topic r)) r.seq)

-- Below the last uint64, a stored message gets the next sequence number of its topic and stands in
-- the buffer under it; every other message, and the numbers of the other topics, stay.
pub store_message_lem :
    (topic body : Text) (r : Rep)
    → last_seq topic r + 1 < 2 ^ 64
    → ((store_message topic body r).0 ≡ last_seq topic r + 1)
      × ((t : Text) (n : ℕ)
          → buffered t n (store_message topic body r).1
            ≡ (if topic == t && last_seq topic r + 1 == n then some body else buffered t n r))
      × ((t : Text)
          → last_seq t (store_message topic body r).1
            ≡ (if topic == t then last_seq topic r + 1 else last_seq t r))
store_message_lem topic body r small =
    let next : inc_u64 (last_seq topic r) ≡ last_seq topic r + 1 = unfold inc_u64 in omega arith in
    (
      unfold store_message in next,
      λ t n. rw (← next) (ground (arith, buffered-store_message topic t n body r)),
      λ t. ground (arith, last_seq-store_message topic t body r),
    )

pub store_message-IsCovered :
    (topic body : Text) (r : Rep)
    → last_seq topic r + 1 < 2 ^ 64
    → IsCovered r
    → IsCovered (store_message topic body r).1
store_message-IsCovered topic body r small h = record {
  at = λ t n b found.
      unfold inc_u64 in
      ground (
        arith,
        text_eq_iff topic t,
        buffered-store_message topic t n body r,
        last_seq-store_message topic t body r,
        h.at t n b,
      );
}
