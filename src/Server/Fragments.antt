-- ===== src/Server/Fragments.antt =====
-- How BroadcastTick of Server_Core/Network/IOCPServer.cpp cuts one receiver's entries into packets.
use ai_xr_project.Base.{
  ℕ, zero, suc, ◌+◌, ◌-◌, ◌*◌, ◌/◌, ◌%◌, ◌^◌, ◌≤◌, ◌<◌, ◌≡◌, refl, ap, sym, ◌∙◌, List, [], ◌∷◌,
  ◌++◌, true, ltb, ◌==◌, if◌then◌else◌, length, take, drop, length-append, length-take, length-drop,
  All, arith, tests, Bool-cases, inl, inr, take-length, drop-add, take-add,
}
use ai_xr_project.Rudp.{Bytes}
use ai_xr_project.Session.{TransformState}
use ai_xr_project.Packets.{
  PacketHeader, header_of, WorldStateBody, header_bytes, body_bytes, entry_bytes, pkt_world_state,
  pkt_flag_none, sizeof_header, sizeof_world_state_body, sizeof_world_state_entry,
}
use ai_xr_project.Packets.Codec.{
  IsHeader, header_of-header_bytes, length-header_bytes, length-body_bytes, length-entry_bytes,
}
use ai_xr_project.Server.{is_well_formed, max_udp_payload, magic_byte_0, magic_byte_1}

-- FWorldStateEntry, by the user and the transform that it is filled with.
abbrev pub Entry : Type 0
Entry = ℕ × TransformState

-- kMaxEntries.
abbrev pub max_entries : ℕ
max_entries = (max_udp_payload - sizeof_header - sizeof_world_state_body) / sizeof_world_state_entry

-- fragCount, a uint8_t.
unfoldable pub frag_count : ℕ → ℕ
frag_count total = (if total == 0 then 1 else (total + max_entries - 1) / max_entries) % 2 ^ 8

-- The entries of one fragment: from `start`, `count` of them.
unfoldable pub frag_entries : List Entry → ℕ → List Entry
frag_entries entries frag =
    let total = length entries in
    let start = frag * max_entries in
    let remaining = if ltb start total then total - start else 0 in
    let count = if ltb remaining max_entries then remaining else max_entries in
    take count (drop start entries)

-- The rounds of the inner loop from `frag` on: each fragment's index and entries.
unfoldable pub frags_from : List Entry → ℕ → ℕ → List (ℕ × List Entry)
frags_from entries frag zero = []
frags_from entries frag (suc rounds) =
    (frag, frag_entries entries frag) ∷ frags_from entries (suc frag) rounds

unfoldable pub frags : List Entry → List (ℕ × List Entry)
frags entries = frags_from entries 0 (frag_count (length entries))

unfoldable pub entries_bytes : List Entry → Bytes
entries_bytes [] = []
entries_bytes (e ∷ es) = entry_bytes e ++ entries_bytes es

-- The header and the body header of one fragment with `count` entries.
unfoldable pub frag_header : ℕ → ℕ → PacketHeader
frag_header ack count = record {
  magic_0 = magic_byte_0;
  magic_1 = magic_byte_1;
  version = 0x01;
  type = pkt_world_state;
  body_len = (sizeof_world_state_body + count * sizeof_world_state_entry) % 2 ^ 16;
  seq_num = 0;
  ack_num = ack;
  flags = pkt_flag_none;
}

unfoldable pub frag_body : ℕ → ℕ → ℕ → ℕ → WorldStateBody
frag_body tick_ms count frag total_frags = record {
  server_time_ms = tick_ms;
  entry_count = count % 2 ^ 16;
  frag_index = frag;
  frag_count = total_frags;
}

-- The packet of one fragment.
unfoldable pub frag_packet : ℕ → ℕ → ℕ → ℕ × List Entry → Bytes
frag_packet ack tick_ms total_frags (frag, es) =
    header_bytes (frag_header ack (length es))
    ++ (body_bytes (frag_body tick_ms (length es) frag total_frags) ++ entries_bytes es)

-- All entries of the fragments, in their order.
abbrev pub reassembled : List (ℕ × List Entry) → List Entry
reassembled [] = []
reassembled ((frag, es) ∷ fs) = es ++ reassembled fs

take_min :
    (n : ℕ) (xs : List Entry) → take (if ltb (length xs) n then length xs else n) xs ≡ take n xs
take_min n xs = elim (Bool-cases (ltb (length xs) n)) [
  | inl short ↦
      rw short (take-length (length xs) xs (omega arith) ∙ sym (take-length n xs (omega tests)))
  | inr long ↦ rw long
]

-- A fragment is the next 28 entries, or what is left of them.
pub frag_entries_lem :
    (entries : List Entry) (frag : ℕ)
    → frag_entries entries frag ≡ take max_entries (drop (frag * max_entries) entries)
unfolding frag_entries
frag_entries_lem entries frag =
    rw (left (frag * max_entries)) (take_min max_entries (drop (frag * max_entries) entries))
  where
    left :
        (start : ℕ)
        → (if ltb start (length entries) then length entries - start else 0)
          ≡ length (drop start entries)
    left start = rw (length-drop start entries) (ground arith)

next_start : (frag : ℕ) → suc frag * max_entries ≡ frag * max_entries + max_entries
next_start frag = omega arith

frags_from-reassembled :
    (entries : List Entry) (frag rounds : ℕ)
    → reassembled (frags_from entries frag rounds)
      ≡ take (rounds * max_entries) (drop (frag * max_entries) entries)
unfolding frags_from
frags_from-reassembled entries frag zero = refl
frags_from-reassembled entries frag (suc rounds) =
    rw (frag_entries_lem entries frag, frags_from-reassembled entries (suc frag) rounds)
      (ap
          (λ l.
            take max_entries (drop (frag * max_entries) entries) ++ take (rounds * max_entries) l)
          next
        ∙ sym (take-add max_entries (rounds * max_entries) (drop (frag * max_entries) entries))
        ∙ ap (λ n. take n (drop (frag * max_entries) entries)) size)
  where
    next :
        drop (suc frag * max_entries) entries ≡ drop max_entries (drop (frag * max_entries) entries)
    next = rw (next_start frag) (drop-add (frag * max_entries) max_entries entries)

    size : max_entries + rounds * max_entries ≡ suc rounds * max_entries
    size = omega arith

pub enough_frags : (total : ℕ) → total ≤ 255 * max_entries → total ≤ frag_count total * max_entries
unfolding frag_count
enough_frags total h = ground arith

-- The entries of the fragments of a tick in their order, for at most 255 * 28 neighbours.
pub frags-reassembled_lem :
    (entries : List Entry)
    → length entries ≤ 255 * max_entries
    → reassembled (frags entries) ≡ entries
unfolding frags
frags-reassembled_lem entries h =
    frags_from-reassembled entries 0 (frag_count (length entries))
    ∙ take-length (frag_count (length entries) * max_entries) entries
        (enough_frags (length entries) h)

length-entries_bytes :
    (es : List Entry) → length (entries_bytes es) ≡ length es * sizeof_world_state_entry
unfolding entries_bytes
length-entries_bytes [] = refl
length-entries_bytes (e ∷ es) = omega (
  arith,
  length-append (entry_bytes e) (entries_bytes es),
  length-entry_bytes e,
  length-entries_bytes es,
)

length-frag_packet :
    (ack tick_ms count frag : ℕ) (es : List Entry)
    → length (frag_packet ack tick_ms count (frag, es)) ≡ 27 + length es * sizeof_world_state_entry
unfolding frag_packet
length-frag_packet ack tick_ms count frag es = omega (
  arith,
  length-append (header_bytes (frag_header ack (length es)))
      (body_bytes (frag_body tick_ms (length es) frag count) ++ entries_bytes es),
  length-append (body_bytes (frag_body tick_ms (length es) frag count)) (entries_bytes es),
  length-header_bytes (frag_header ack (length es)),
  length-body_bytes (frag_body tick_ms (length es) frag count),
  length-entries_bytes es,
)

frag_header-IsHeader : (ack count : ℕ) → ack < 2 ^ 32 → IsHeader (frag_header ack count)
unfolding frag_header
frag_header-IsHeader ack count h = record {
  magic_0_byte = omega arith;
  magic_1_byte = omega arith;
  version_byte = omega arith;
  type_byte = omega arith;
  body_len_word = omega arith;
  seq_num_word = omega arith;
  ack_num_word = h;
  flags_byte = omega arith;
}

pub header_of-frag_packet :
    (ack tick_ms total_frags frag : ℕ) (es : List Entry)
    → ack < 2 ^ 32
    → header_of (frag_packet ack tick_ms total_frags (frag, es)) ≡ frag_header ack (length es)
unfolding frag_packet
header_of-frag_packet ack tick_ms total_frags frag es h =
    header_of-header_bytes (frag_header ack (length es))
      (body_bytes (frag_body tick_ms (length es) frag total_frags) ++ entries_bytes es)
      (frag_header-IsHeader ack (length es) h)

-- The packet fits a datagram, and passes the header checks that DispatchPacket makes.
abbrev pub IsSendable : Bytes → Type 0
IsSendable bytes =
    (0 < length bytes) × (length bytes ≤ max_udp_payload) × (is_well_formed bytes ≡ true)

frag_packet-IsSendable :
    (ack tick_ms total_frags frag : ℕ) (es : List Entry)
    → ack < 2 ^ 32
    → length es ≤ max_entries
    → IsSendable (frag_packet ack tick_ms total_frags (frag, es))
unfolding is_well_formed frag_header
frag_packet-IsSendable ack tick_ms total_frags frag es h small = (
  omega (arith, size),
  omega (arith, size),
  rw (header_of-frag_packet ack tick_ms total_frags frag es h, size) (ground arith),
)
  where
    size :
        length (frag_packet ack tick_ms total_frags (frag, es))
        ≡ 27 + length es * sizeof_world_state_entry
    size = length-frag_packet ack tick_ms total_frags frag es

length-frag_entries :
    (entries : List Entry) (frag : ℕ) → length (frag_entries entries frag) ≤ max_entries
length-frag_entries entries frag =
    rw (frag_entries_lem entries frag)
      (omega (arith, length-take max_entries (drop (frag * max_entries) entries)))

frags_from-IsSendable :
    (ack tick_ms total_frags : ℕ) (entries : List Entry) (frag rounds : ℕ)
    → ack < 2 ^ 32
    → All (λ f. IsSendable (frag_packet ack tick_ms total_frags f)) (frags_from entries frag rounds)
unfolding frags_from
frags_from-IsSendable ack tick_ms total_frags entries frag zero h = tt
frags_from-IsSendable ack tick_ms total_frags entries frag (suc rounds) h = (
  frag_packet-IsSendable ack tick_ms total_frags frag (frag_entries entries frag) h
      (length-frag_entries entries frag),
  frags_from-IsSendable ack tick_ms total_frags entries (suc frag) rounds h,
)

-- Whatever the entries, every packet of a tick is neither empty nor larger than a datagram may be,
-- and passes the length, magic, version and body checks of DispatchPacket.
pub frags-IsSendable :
    (ack tick_ms : ℕ) (entries : List Entry)
    → ack < 2 ^ 32
    → All
        (λ f. IsSendable (frag_packet ack tick_ms (frag_count (length entries)) f))
        (frags entries)
unfolding frags
frags-IsSendable ack tick_ms entries h =
    frags_from-IsSendable ack tick_ms (frag_count (length entries)) entries 0
      (frag_count (length entries)) h

zero_frags : (n : ℕ) → 255 * max_entries < n → n ≤ 256 * max_entries → frag_count n ≡ 0
unfolding frag_count
zero_frags n low high = ground arith

-- With 7141 to 7168 neighbours the number of fragments is 256, which is 0 in a uint8_t: the receiver
-- is sent no packet at all in the tick.
pub frags_overflow :
    (entries : List Entry)
    → 255 * max_entries < length entries
    → length entries ≤ 256 * max_entries
    → frags entries ≡ []
unfolding frags
frags_overflow entries low high =
    rw (zero_frags (length entries) low high) (unfold frags_from in refl)
