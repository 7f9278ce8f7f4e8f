-- ===== src/Transport/Reassembly/Joining.antt =====
-- The parts of the invariant of src/transport.rs, `ServerMessageReassembler`, and the steps of
-- `observe` that touch the entry of one key.
use rcodex.Common.{
  ℕ, zero, suc, ◌+◌, ◌-◌, ◌≤◌, ◌<◌, ◌≡◌, refl, ap, ◌∙◌, true, Option, none, some, List, [], ◌∷◌,
  arith, length, get_elem?, set, replicate, any, All, sum_of, length-set, length-replicate, Text,
  Bytes,
}
use rcodex.Common.Assoc.{
  lookup, put, delete, HasDistinctKeys, lookup-put_self, delete-put, delete_absent,
  HasDistinctKeys-put, HasDistinctKeys-delete, All-delete, All-lookup, length-delete, sum_of-delete,
}
use rcodex.Transport.Fields.{
  max_message_bytes, max_segments, max_concurrent_assemblies, max_buffered_assembly_bytes,
}
use rcodex.Transport.Reassembly.{
  Assembly, Assemblies, Reassembler, Segment, chunk_bytes, is_none, new_assembly, remove_assembly,
  chunk_at,
}

-- The bytes that have arrived for an assembly.
abbrev pub arrived : List (Option Bytes) → ℕ
arrived cs = sum_of (λ c. length (chunk_bytes c)) cs

-- An assembly as it may be while a segment is taken in.
pub record IsCounted (a : Assembly) : Type 0 where
  pub counted : a.received_bytes ≡ arrived a.chunks
  pub within : a.received_bytes ≤ a.message_size
  pub sized : a.message_size ≤ max_message_bytes
  pub several : 2 ≤ length a.chunks
  pub few : length a.chunks ≤ max_segments

-- Between two segments an assembly also waits for a chunk.
pub record IsWaiting (a : Assembly) : Type 0 where
  pub is_counted : IsCounted a
  pub open is_counted use *
  pub waits : any is_none a.chunks ≡ true

abbrev pub held : Assemblies → ℕ
held m = sum_of (λ (e : Text × Assembly). e.1.received_bytes) m

pub record IsValid (r : Reassembler) : Type 0 where
  pub each : All (λ e. IsWaiting e.1) r.assemblies
  pub distinct : HasDistinctKeys r.assemblies
  pub limited : length r.assemblies ≤ max_concurrent_assemblies
  pub counted : r.buffered_bytes ≡ held r.assemblies
  pub bounded : r.buffered_bytes ≤ max_buffered_assembly_bytes

-- The same with the assembly of one key set apart, which may be complete.
pub record IsJoining (r : Reassembler) (key : Text) (a : Assembly) : Type 0 where
  pub entry : lookup key r.assemblies ≡ some a
  pub this : IsCounted a
  pub others : All (λ e. IsWaiting e.1) (delete key r.assemblies)
  pub distinct : HasDistinctKeys r.assemblies
  pub limited : length r.assemblies ≤ max_concurrent_assemblies
  pub counted : r.buffered_bytes ≡ held r.assemblies
  pub bounded : r.buffered_bytes ≤ max_buffered_assembly_bytes

pub dropped-IsValid :
    (r : Reassembler) (key : Text) (a : Assembly)
    → IsJoining r key a
    → IsValid (record {
      assemblies = delete key r.assemblies;
      buffered_bytes = r.buffered_bytes - a.received_bytes;
    })
dropped-IsValid r key a h =
    let less = length-delete key a r.assemblies h.entry in
    let sum = sum_of-delete (λ (b : Assembly). b.received_bytes) key a r.assemblies h.entry in
    record {
      each = h.others;
      distinct = HasDistinctKeys-delete key r.assemblies h.distinct;
      limited = omega (arith, less, h.limited);
      counted = omega (arith, sum, h.counted);
      bounded = omega (arith, h.bounded);
    }

pub remove_assembly_joining-IsValid :
    (r : Reassembler) (key : Text) (a : Assembly)
    → IsJoining r key a
    → IsValid (remove_assembly r key)
unfolding remove_assembly
remove_assembly_joining-IsValid r key a h =
    rw (h.entry, remove_assembly) (dropped-IsValid r key a h)

pub arrived-set :
    (cs : List (Option Bytes)) (i : ℕ) (b : Bytes)
    → get_elem? cs i ≡ some none
    → arrived (set cs i (some b)) ≡ arrived cs + length b
arrived-set [] i b e = cc
arrived-set (x ∷ cs) zero b e = ground arith
arrived-set (x ∷ cs) (suc i) b e = omega (arith, arrived-set cs i b e)

pub arrived-replicate : (n : ℕ) → arrived (replicate n none) ≡ 0
arrived-replicate zero = refl
arrived-replicate (suc n) = omega (arith, arrived-replicate n)

pub empty_slot :
    (cs : List (Option Bytes)) (i : ℕ)
    → i < length cs
    → chunk_at cs i ≡ none
    → get_elem? cs i ≡ some none
empty_slot [] i h e = elim h [ ]
empty_slot (x ∷ cs) zero h e = ap some e
empty_slot (x ∷ cs) (suc i) h e = empty_slot cs i (omega arith) e

-- What the tests of `read_segment` leave.
pub record IsGood (s : Segment) : Type 0 where
  pub indexed : s.segment_id < s.segment_count
  pub several : 2 ≤ s.segment_count
  pub few : s.segment_count ≤ max_segments
  pub sized : s.message_size ≤ max_message_bytes
  pub filled : 0 < length s.chunk
  pub fits : length s.chunk ≤ s.message_size

unfoldable pub stored : Segment → Assembly → Assembly
stored s a = record a {
  chunks = set a.chunks s.segment_id (some s.chunk);
  received_bytes = a.received_bytes + length s.chunk;
}

pub stored-IsJoining :
    (r : Reassembler) (s : Segment) (a : Assembly)
    → IsJoining r s.key a
    → get_elem? a.chunks s.segment_id ≡ some none
    → a.received_bytes + length s.chunk ≤ a.message_size
    → r.buffered_bytes + length s.chunk ≤ max_buffered_assembly_bytes
    → IsJoining
        (record {
          assemblies = put s.key (stored s a) r.assemblies;
          buffered_bytes = r.buffered_bytes + length s.chunk;
        })
        s.key
        (stored s a)
unfolding stored
stored-IsJoining r s a h free fits room =
    let m = r.assemblies in
    let a' = stored s a in
    let entry = lookup-put_self s.key a' m in
    let same = delete-put s.key a' m in
    let same_length = ap length same in
    let same_held = ap held same in
    record {
      entry = entry;
      this = record {
        counted = omega (arith, arrived-set a.chunks s.segment_id s.chunk free, h.this.counted);
        within = fits;
        sized = h.this.sized;
        several = rw (length-set a.chunks s.segment_id (some s.chunk)) h.this.several;
        few = rw (length-set a.chunks s.segment_id (some s.chunk)) h.this.few;
      };
      others = rw same h.others;
      distinct = HasDistinctKeys-put s.key a' m h.distinct;
      limited = omega (
        arith,
        h.limited,
        same_length,
        length-delete s.key a' (put s.key a' m) entry,
        length-delete s.key a m h.entry,
      );
      counted = omega (
        arith,
        h.counted,
        same_held,
        sum_of-delete (λ (b : Assembly). b.received_bytes) s.key a' (put s.key a' m) entry,
        sum_of-delete (λ (b : Assembly). b.received_bytes) s.key a m h.entry,
      );
      bounded = room;
    }

pub new-IsJoining :
    (r : Reassembler) (s : Segment)
    → IsValid r
    → IsGood s
    → lookup s.key r.assemblies ≡ none
    → length r.assemblies < max_concurrent_assemblies
    → IsJoining
        (record r { assemblies = put s.key (new_assembly s) r.assemblies })
        s.key
        (new_assembly s)
new-IsJoining r s v g absent room =
    let m = r.assemblies in
    let a = new_assembly s in
    let entry = lookup-put_self s.key a m in
    let same = delete-put s.key a m ∙ delete_absent s.key m absent in
    let same_length = ap length same in
    let same_held = ap held same in
    record {
      entry = entry;
      this = record {
        counted = omega (arith, arrived-replicate s.segment_count);
        within = omega arith;
        sized = g.sized;
        several = rw (length-replicate {A = Option Bytes} s.segment_count none) g.several;
        few = rw (length-replicate {A = Option Bytes} s.segment_count none) g.few;
      };
      others = rw same v.each;
      distinct = HasDistinctKeys-put s.key a m v.distinct;
      limited = omega (arith, room, same_length, length-delete s.key a (put s.key a m) entry);
      counted = omega (
        arith,
        v.counted,
        same_held,
        sum_of-delete (λ (b : Assembly). b.received_bytes) s.key a (put s.key a m) entry,
      );
      bounded = v.bounded;
    }

pub old-IsJoining :
    (r : Reassembler) (key : Text) (a : Assembly)
    → IsValid r
    → lookup key r.assemblies ≡ some a
    → IsJoining r key a
old-IsJoining r key a v e = record {
  entry = e;
  this = (All-lookup IsWaiting key a r.assemblies e v.each).is_counted;
  others = All-delete (λ e. IsWaiting e.1) key r.assemblies v.each;
  distinct = v.distinct;
  limited = v.limited;
  counted = v.counted;
  bounded = v.bounded;
}
