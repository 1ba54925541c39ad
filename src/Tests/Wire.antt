-- ===== src/Tests/Wire.antt =====
-- Runs of the theorems about the packets and the broadcast.
use mathlib.Core.List.{Mem}
use ai_xr_project.Base.{
  ℕ, zero, suc, ◌≡◌, ◌↔◌, refl, ap, List, [], ◌∷◌, arith, length, All, ◌<◌, true, some,
}
use ai_xr_project.Session.{no_transform, SockAddr}
use ai_xr_project.Packets.{PacketHeader}
use ai_xr_project.Server.Fragments.{
  Entry, frags, frag_count, frag_packet, IsSendable, frags-IsSendable, frags_overflow,
}
use ai_xr_project.Packets.Entries.{IsEntry, IsTransform}
use ai_xr_project.Rudp.Outbound.{contains}
use ai_xr_project.Server.Reassembly.{reassemble, arrived, frags-reassembled}
use ai_xr_project.Server.Broadcast.{Peer, entries_for, IsShown, mem-entries_for}

abbrev header : PacketHeader
header = record {
  magic_0 = 0x41;
  magic_1 = 0x52;
  version = 1;
  type = 5;
  body_len = 12;
  seq_num = 70000;
  ack_num = 3;
  flags = 1;
}

abbrev copies : ℕ → List Entry
copies zero = []
copies (suc n) = (suc n, no_transform) ∷ copies n

length-copies : (n : ℕ) → length (copies n) ≡ n
length-copies zero = refl
length-copies (suc n) = ap suc (length-copies n)

no_transform-IsTransform : IsTransform no_transform
no_transform-IsTransform = record {
  seq_word = omega arith;
  pos_x_word = omega arith;
  pos_y_word = omega arith;
  pos_z_word = omega arith;
  rot_x_word = omega arith;
  rot_y_word = omega arith;
  rot_z_word = omega arith;
  rot_w_word = omega arith;
  vel_x_word = omega arith;
  vel_y_word = omega arith;
  vel_z_word = omega arith;
  era_byte = omega arith;
  flags_byte = omega arith;
}

copies-fit : (n : ℕ) → n < 1000 → All IsEntry (copies n)
copies-fit zero h = tt
copies-fit (suc n) h = ((omega arith, no_transform-IsTransform), copies-fit n (omega arith))

-- All three packets of the tick, the last one first and the first one twice.
any_order : List ℕ
any_order = 2 ∷ 0 ∷ 1 ∷ 0 ∷ []

all_three : (j : ℕ) → j < frag_count (length (copies 60)) → contains j any_order ≡ true
unfolding frag_count any_order
all_three zero h = refl
all_three (suc zero) h = refl
all_three (suc (suc zero)) h = refl
all_three (suc (suc (suc j))) h = absurd (omega (arith, length-copies 60))

frags-reassembled_example : reassemble (arrived 5 1000 (copies 60) any_order) ≡ some (copies 60)
unfolding frag_count any_order
frags-reassembled_example =
    frags-reassembled 5 1000 (copies 60) any_order (omega (arith, length-copies 60))
      (copies-fit 60 (omega arith)) (omega arith, (omega arith, (omega arith, (omega arith, tt))))
      all_three

frags-IsSendable_example :
    All
      (λ f. IsSendable (frag_packet 3 1000 (frag_count (length (copies 60))) f))
      (frags (copies 60))
frags-IsSendable_example = frags-IsSendable 3 1000 (copies 60) (omega arith)

frags_overflow_example : frags (copies 7150) ≡ []
frags_overflow_example =
    frags_overflow (copies 7150) (omega (arith, length-copies 7150))
      (omega (arith, length-copies 7150))

abbrev place : SockAddr
place = record { s_addr = 0x0a00_0001; sin_port = 5000 }

abbrev me : Peer
me = record { user_id = 7; addr = place; ack = 0; t = no_transform }

abbrev other : Peer
other = record me { user_id = 8; t = record no_transform { seq = 4 } }

mem-entries_for_example :
    Mem (8, other.t) (entries_for me (me ∷ other ∷ [])) ↔ IsShown me (me ∷ other ∷ []) (8, other.t)
mem-entries_for_example = mem-entries_for me (me ∷ other ∷ []) (8, other.t)
