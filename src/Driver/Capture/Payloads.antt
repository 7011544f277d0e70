-- ===== src/Driver/Capture/Payloads.antt =====
-- MiniMonFlt/src/trace/supplement/: payloads and the buffers they come from.
use minifilter_monitor.Common.{
  ℕ, zero, suc, ◌+◌, ◌≤◌, ◌≡◌, refl, ap, ◌∙◌, Bool, true, not, ◌⊎◌, inl, inr, ◌||◌, Option, none,
  some, arith, ltb, ◌==◌, length, take, overwrite, length-overwrite, take-overwrite, Bool-cases,
  sym,
}
use minifilter_monitor.Protocol.Supplements.{Payload}
use minifilter_monitor.Driver.State.{below_dispatch_level}
use minifilter_monitor.Driver.Memory.{
  CallbackData, Mdl, Memory, get_readable_buffer, map_mdl, copy_readable_buffer, copy_until,
  read_bytes,
}
use minifilter_monitor.Driver.Capture.{
  fitting, written, mark_captured, after_copy, copy_readable, copy_from, copy_direct,
  populate_write, populate_read, populate_volume_set,
}

length-read_bytes : (byte : ℕ → ℕ) (a n : ℕ) → length (read_bytes byte a n) ≡ n
unfolding read_bytes
length-read_bytes byte a zero = refl
length-read_bytes byte a (suc n) = ap suc (length-read_bytes byte (a + 1) n)

-- A payload after a capture of at most `data_size` bytes: nothing is marked; or the payload holds the
-- first bytes at the address `source`, as many as it has and as fit, and the TRUNCATED bit is set
-- exactly if these are not all. In both cases the array keeps its length.
pub record IsCaptured (m : Memory) (source : Option ℕ) (data_size : ℕ) (p q : Payload)
    : Type 0 where
  pub same_room : length q.bytes ≡ length p.bytes
  pub outcome :
      ((q.captured ≡ p.captured)
        × (q.truncated ≡ p.truncated)
        × (q.captured_size ≡ p.captured_size))
      ⊎ ((a : ℕ) × (source ≡ some a)
          × (q.captured ≡ true)
          × (q.truncated ≡ (p.truncated || ltb q.captured_size data_size))
          × (q.captured_size ≤ length q.bytes)
          × (q.captured_size ≤ data_size)
          × (take q.captured_size q.bytes ≡ read_bytes m.byte a q.captured_size))

skipped-IsCaptured :
    (m : Memory) (source : Option ℕ) (data_size : ℕ) (p : Payload)
    → IsCaptured m source data_size p p
skipped-IsCaptured m source n p = record { same_room = refl; outcome = inl (refl, refl, refl) }

-- A copy that succeeds.
marked-IsCaptured :
    (m : Memory) (a size data_size : ℕ) (p : Payload)
    → size ≤ data_size
    → size ≤ length p.bytes
    → IsCaptured m
        (some a)
        data_size
        p
        (mark_captured size data_size (overwrite p.bytes (read_bytes m.byte a size)) p)
marked-IsCaptured m a size n p h k =
    let l = length-overwrite p.bytes (read_bytes m.byte a size) in
    let r = length-read_bytes m.byte a size in
    record {
      same_room = l;
      outcome = inr (
        a,
        refl,
        refl,
        refl,
        omega (arith, l, k),
        h,
        ap (λ c. take c (overwrite p.bytes (read_bytes m.byte a size))) (sym r)
            ∙ take-overwrite p.bytes (read_bytes m.byte a size) (omega (arith, r, k)),
      );
    }

after_copy-IsCaptured :
    (m : Memory) (f : Option ℕ) (a size data_size : ℕ) (p : Payload)
    → size ≤ data_size
    → size ≤ length p.bytes
    → IsCaptured m
        (some a)
        data_size
        p
        (after_copy (copy_until f m p.bytes a size) size data_size p)
unfolding copy_until
after_copy-IsCaptured m none a size n p h k = marked-IsCaptured m a size n p h k
after_copy-IsCaptured m (some copied) a size n p h k = record {
  same_room = length-overwrite p.bytes _;
  outcome = inl (refl, refl, refl);
}

copy_readable-IsCaptured :
    (m : Memory) (a size data_size : ℕ) (p : Payload)
    → size ≤ data_size
    → size ≤ length p.bytes
    → IsCaptured m (some a) data_size p (copy_readable m a size data_size p)
unfolding copy_readable copy_readable_buffer
copy_readable-IsCaptured m a size n p h k = after_copy-IsCaptured m (m.fault a size) a size n p h k

-- GetReadableBuffer only ever lowers the size.
get_readable_buffer_lowers :
    (d : CallbackData) (mdl : Option Mdl) (raw : Option ℕ) (size : ℕ) (probed : Bool)
    → (get_readable_buffer d mdl raw size probed).1 ≤ size
unfolding get_readable_buffer map_mdl
get_readable_buffer_lowers d none raw size probed = ground arith
get_readable_buffer_lowers d (some mdl) raw size probed = ground arith

fitting-le : (size : ℕ) (p : Payload) → (fitting size p ≤ size) × (fitting size p ≤ length p.bytes)
fitting-le size p = ground arith

copy_from-IsCaptured :
    (m : Memory) (b : Option ℕ × ℕ) (data_size : ℕ) (p : Payload)
    → b.1 ≤ data_size
    → IsCaptured m b.0 data_size p (copy_from m b data_size p)
unfolding copy_from
copy_from-IsCaptured m (none, n) size p h = skipped-IsCaptured m none size p
copy_from-IsCaptured m (some a, n) size p h =
    let (less, room) = fitting-le n p in
    elim (Bool-cases (n == 0)) [
      | inl nothing ↦ rw nothing (skipped-IsCaptured m (some a) size p)
      | inr more ↦
          rw more (copy_readable-IsCaptured m a (fitting n p) size p (omega (arith, less, h)) room)
    ]

-- A write's payload is the beginning of the data to be written, whichever way its buffer is mapped,
-- at whichever IRQL, and whatever exception the copy raises.
pub populate_write-IsCaptured :
    (m : Memory) (d : CallbackData) (mdl : Option Mdl) (buffer : Option ℕ) (size : ℕ) (p : Payload)
    → IsCaptured m
        (get_readable_buffer d mdl buffer size true).0
        size
        p
        (populate_write m d mdl buffer size p)
unfolding populate_write
populate_write-IsCaptured m d mdl buffer size p = elim (Bool-cases (size == 0)) [
  | inl nothing ↦
      rw nothing (skipped-IsCaptured m (get_readable_buffer d mdl buffer size true).0 size p)
  | inr more ↦ rw more (
      copy_from-IsCaptured m (get_readable_buffer d mdl buffer size true) size p
        (get_readable_buffer_lowers d mdl buffer size true))
]

-- A read's payload is the beginning of what the completion wrote, and no byte of the caller's buffer
-- behind that.
pub populate_read-IsCaptured :
    (m : Memory) (d : CallbackData) (mdl : Option Mdl) (buffer : Option ℕ) (size : ℕ) (p : Payload)
    → IsCaptured m
        (get_readable_buffer d mdl buffer (written d size) true).0
        (written d size)
        p
        (populate_read m d mdl buffer size p)
unfolding populate_read
populate_read-IsCaptured m d mdl buffer size p =
    elim (Bool-cases (size == 0 || d.information == 0)) [
      | inl nothing ↦ rw nothing (
          skipped-IsCaptured m (get_readable_buffer d mdl buffer (written d size) true).0
            (written d size) p)
      | inr more ↦ rw more (
          copy_from-IsCaptured m (get_readable_buffer d mdl buffer (written d size) true)
            (written d size) p (get_readable_buffer_lowers d mdl buffer (written d size) true))
    ]

copy_direct-IsCaptured :
    (m : Memory) (a size : ℕ) (p : Payload) → IsCaptured m (some a) size p (copy_direct m a size p)
unfolding copy_direct
copy_direct-IsCaptured m a size p =
    let (less, room) = fitting-le size p in marked-IsCaptured m a (fitting size p) size p less room

pub populate_volume_set-IsCaptured :
    (m : Memory) (d : CallbackData) (buffer : Option ℕ) (size : ℕ) (p : Payload)
    → IsCaptured m buffer size p (populate_volume_set m d buffer size p)
unfolding populate_volume_set
populate_volume_set-IsCaptured m d none size p = skipped-IsCaptured m none size p
populate_volume_set-IsCaptured m d (some a) size p =
    elim (Bool-cases (not (below_dispatch_level d.irql) || size == 0)) [
      | inl skips ↦ rw skips (skipped-IsCaptured m (some a) size p)
      | inr copies ↦ rw copies (copy_direct-IsCaptured m a size p)
    ]
