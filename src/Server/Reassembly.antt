-- ===== src/Server/Reassembly.antt =====
-- The fragments that BroadcastTick of Server_Core/Network/IOCPServer.cpp sends a receiver, as the
-- receiver reads them by the layout of Shared/include/Packets.h.
use ai_xr_project.Base.{
  ℕ, zero, suc, ◌+◌, ◌*◌, ◌≤◌, ◌<◌, ◌^◌, ◌≡◌, refl, ap, ap₂, sym, ◌∙◌, List, [], ◌∷◌, ◌++◌, map,
  Option, none, some, true, ◌==◌, if◌then◌else◌, length, take, drop, ◌%◌, length-take, All, arith,
  Bool-cases, inl, inr, ◌>>=◌,
}
use ai_xr_project.Rudp.{Bytes}
use ai_xr_project.Rudp.Outbound.{contains}
use ai_xr_project.Packets.{field, le_bytes, header_bytes, body_bytes}
use ai_xr_project.Packets.Codec.{le_value_1, le_value_2}
use ai_xr_project.Packets.Entries.{entry_of, IsEntry, entry_of-entry_bytes}
use ai_xr_project.Server.Fragments.{
  Entry, frags, frags_from, frag_count, frag_entries, frag_packet, frag_body, entries_bytes,
  max_entries, reassembled, frags-reassembled_lem, frag_entries_lem,
}

-- FragIndex and FragCount of FWorldStateBody, and the entries behind it.
abbrev pub frag_index_of : Bytes → ℕ
frag_index_of = field 25 1

abbrev pub frag_count_of : Bytes → ℕ
frag_count_of = field 26 1

-- That many entries of 50 bytes.
unfoldable pub entries_of : ℕ → Bytes → List Entry
entries_of zero b = []
entries_of (suc n) b = entry_of b ∷ entries_of n (drop 50 b)

-- The entries of a packet, by its EntryCount.
abbrev pub payload_of : Bytes → List Entry
payload_of b = entries_of (field 23 2 b) (drop 27 b)

-- The first received packet whose FragIndex is i.
unfoldable pub with_index : ℕ → List Bytes → Option Bytes
with_index i [] = none
with_index i (b ∷ bs) = let rest = with_index i bs in if frag_index_of b == i then some b else rest

-- The payloads of the packets with the n indices from i on, if they are all there.
unfoldable pub gather : ℕ → ℕ → List Bytes → Option (List Entry)
gather zero i got = some []
gather (suc n) i got =
    let rest = gather n (suc i) got in
    with_index i got >>= λ b. rest >>= λ more. some (payload_of b ++ more)

-- A receiver puts a tick together by FragCount and FragIndex, whatever order the packets came in.
unfoldable pub reassemble : List Bytes → Option (List Entry)
reassemble [] = none
reassemble (b ∷ bs) = gather (frag_count_of b) 0 (b ∷ bs)

-- The datagram at a place of a list.
abbrev pub datagram : List Bytes → ℕ → Bytes
datagram [] j = []
datagram (b ∷ bs) zero = b
datagram (b ∷ bs) (suc j) = datagram bs j

entries_of-entries_bytes :
    (es : List Entry) → All IsEntry es → entries_of (length es) (entries_bytes es) ≡ es
unfolding entries_of entries_bytes
entries_of-entries_bytes [] h = refl
entries_of-entries_bytes (e ∷ es) h =
    let (first, left) = entry_of-entry_bytes e (entries_bytes es) h.0 in
    ap₂ (λ x xs. x ∷ xs) first (ap (entries_of (length es)) left ∙ entries_of-entries_bytes es h.1)

All-take : (n : ℕ) (es : List Entry) → All IsEntry es → All IsEntry (take n es)
All-take zero es h = tt
All-take (suc n) [] h = tt
All-take (suc n) (e ∷ es) h = (h.0, All-take n es h.1)

All-drop : (n : ℕ) (es : List Entry) → All IsEntry es → All IsEntry (drop n es)
All-drop zero es h = h
All-drop (suc n) [] h = tt
All-drop (suc n) (e ∷ es) h = All-drop n es h.1

module _ (ack now : ℕ) (entries : List Entry) where
  total : ℕ
  total = frag_count (length entries)

  fragment : ℕ → Bytes
  fragment i = frag_packet ack now total (i, frag_entries entries i)

  frag_index_of-fragment : (i : ℕ) → i < 256 → frag_index_of (fragment i) ≡ i
  unfolding fragment frag_packet header_bytes body_bytes frag_body field le_bytes
  frag_index_of-fragment i h = le_value_1 i h

  total_byte : total < 256
  unfolding total frag_count
  total_byte = omega arith

  frag_count_of-fragment : (i : ℕ) → frag_count_of (fragment i) ≡ total
  unfolding fragment frag_packet header_bytes body_bytes frag_body field le_bytes
  frag_count_of-fragment i = le_value_1 total total_byte

  frag_entries-fit :
      (i : ℕ)
      → All IsEntry entries
      → All IsEntry (frag_entries entries i) × (length (frag_entries entries i) < 2 ^ 16)
  frag_entries-fit i fit = rw (frag_entries_lem entries i) (
    All-take max_entries (drop (i * max_entries) entries) (All-drop (i * max_entries) entries fit),
    omega (arith, length-take max_entries (drop (i * max_entries) entries)),
  )

  payload_of-fragment :
      (i : ℕ) → All IsEntry entries → payload_of (fragment i) ≡ frag_entries entries i
  unfolding fragment frag_packet frag_body header_bytes body_bytes field le_bytes
  payload_of-fragment i fit =
      let es = frag_entries entries i in
      let (ok, short) = frag_entries-fit i fit in
      let count : length es % 2 ^ 16 ≡ length es = omega arith in
      ap (λ n. entries_of n (entries_bytes es))
        (le_value_2 (length es % 2 ^ 16) (omega arith) ∙ count)
      ∙ entries_of-entries_bytes es ok

  -- The packets of the tick, as the inner loop of BroadcastTick sends them.
  abbrev pub packets : List Bytes
  packets = map (λ f. frag_packet ack now (frag_count (length entries)) f) (frags entries)

  datagram-frags_from :
      (frag rounds j : ℕ)
      → j < rounds
      → datagram (map (λ f. frag_packet ack now total f) (frags_from entries frag rounds)) j
        ≡ fragment (frag + j)
  unfolding frags_from fragment
  datagram-frags_from frag zero j h = absurd (omega arith)
  datagram-frags_from frag (suc rounds) zero h = ap fragment (omega arith)
  datagram-frags_from frag (suc rounds) (suc j) h =
      datagram-frags_from (suc frag) rounds j (omega arith) ∙ ap fragment (omega arith)

  datagram-packets : (j : ℕ) → j < total → datagram packets j ≡ fragment j
  unfolding total frags
  datagram-packets j h =
      datagram-frags_from 0 (frag_count (length entries)) j h ∙ ap fragment (omega arith)

  -- The datagrams that arrive, by their places among those sent.
  abbrev pub arrived : List ℕ → List Bytes
  arrived js = map (datagram packets) js

  with_index-arrived :
      (i : ℕ) (js : List ℕ)
      → i < total
      → All (λ j. j < total) js
      → contains i js ≡ true
      → with_index i (arrived js) ≡ some (fragment i)
  unfolding with_index
  with_index-arrived i [] h sent there = absurd (ground arith)
  with_index-arrived i (j ∷ js) h sent there =
      let read : frag_index_of (datagram packets j) ≡ j =
        ap frag_index_of (datagram-packets j sent.0)
        ∙ frag_index_of-fragment j (omega (arith, sent.0, total_byte)) in
      elim (Bool-cases (j == i)) [
        | inl here ↦
            let same : j ≡ i = ground arith in
            rw (read, here) (ap some (datagram-packets j sent.0 ∙ ap fragment same))
        | inr other ↦ rw (read, other) (with_index-arrived i js h sent.1 (ground (arith)))
      ]

  gather-arrived :
      (n i : ℕ) (js : List ℕ)
      → i + n ≤ total
      → All (λ j. j < total) js
      → ((j : ℕ) → j < total → contains j js ≡ true)
      → All IsEntry entries
      → gather n i (arrived js) ≡ some (reassembled (frags_from entries i n))
  unfolding gather frags_from
  gather-arrived zero i js h sent all fit = refl
  gather-arrived (suc n) i js h sent all fit =
      let rest = gather-arrived n (suc i) js (omega arith) sent all fit in
      let found = with_index-arrived i js (omega arith) sent (all i (omega arith)) in
      rw (found, rest, payload_of-fragment i fit) refl

  total_positive : length entries ≤ 255 * max_entries → 0 < total
  unfolding total frag_count
  total_positive h = ground arith

  -- The packets of a tick about at most 255 * 28 neighbours arrive in any order, with repetitions,
  -- each at least once; the ids and transforms of the neighbours fit their types. From the
  -- FragCount, FragIndex and EntryCount in the bytes a receiver puts together exactly the entries of
  -- the tick, in their order: none is lost, repeated, moved or changed.
  pub frags-reassembled :
      (js : List ℕ)
      → length entries ≤ 255 * max_entries
      → All IsEntry entries
      → All (λ j. j < frag_count (length entries)) js
      → ((j : ℕ) → j < frag_count (length entries) → contains j js ≡ true)
      → reassemble (arrived js) ≡ some entries
  unfolding reassemble total
  frags-reassembled [] few fit sent all = absurd (ground (arith, all 0 (total_positive few)))
  frags-reassembled (j ∷ js) few fit sent all =
      let count : frag_count_of (datagram packets j) ≡ total =
        ap frag_count_of (datagram-packets j sent.0) ∙ frag_count_of-fragment j in
      let n = frag_count (length entries) in
      ap (λ k. gather k 0 (arrived (j ∷ js))) count
      ∙ gather-arrived n 0 (j ∷ js) (omega arith) sent all fit
      ∙ ap some (unfold frags in frags-reassembled_lem entries few)

-- The numbers from `from` on, n of them.
abbrev range : ℕ → ℕ → List ℕ
range from zero = []
range from (suc n) = from ∷ range (suc from) n

All-range : (from n top : ℕ) → from + n ≤ top → All (λ j. j < top) (range from n)
All-range from zero top h = tt
All-range from (suc n) top h = (omega arith, All-range (suc from) n top (omega arith))

contains-range : (from n j : ℕ) → from ≤ j → j < from + n → contains j (range from n) ≡ true
contains-range from zero j lo hi = absurd (omega arith)
contains-range from (suc n) j lo hi = elim (Bool-cases (from == j)) [
  | inl here ↦ rw here
  | inr later ↦ rw later (contains-range (suc from) n j (ground arith) (omega arith))
]

module _ (ack now : ℕ) (entries : List Entry) where
  arrived-range :
      (frag n : ℕ)
      → frag + n ≤ total ack now entries
      → arrived ack now entries (range frag n)
        ≡ map (λ f. frag_packet ack now (frag_count (length entries)) f) (frags_from entries frag n)
  unfolding frags_from total fragment
  arrived-range frag zero h = refl
  arrived-range frag (suc n) h =
      ap₂ (λ b bs. b ∷ bs) (datagram-packets ack now entries frag (omega arith))
        (arrived-range (suc frag) n (omega arith))

  -- So does a receiver whom all packets reach in order.
  pub reassemble-packets :
      length entries ≤ 255 * max_entries
      → All IsEntry entries
      → reassemble (packets ack now entries) ≡ some entries
  unfolding total frags
  reassemble-packets few fit =
      let n = frag_count (length entries) in
      ap reassemble (sym (arrived-range 0 n (omega arith)))
      ∙ frags-reassembled ack now entries (range 0 n) few fit (All-range 0 n n (omega arith))
          (λ j h. contains-range 0 n j (omega arith) (omega arith))
