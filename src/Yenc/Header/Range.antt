-- ===== src/Yenc/Header/Range.antt =====
-- The byte range of a part, from its header.
use drakkar.Prelude.{◌≡◌, arith, if◌then◌else◌}
use drakkar.Prelude.Int.{pos, ◌+ℤ◌, ◌-ℤ◌, ◌≤ℤ◌, eqb_ℤ, IsInt64}
use drakkar.Yenc.Header.{PartInfo, decoded_size, decoded_start}

-- For a part that begins at a byte from 1 on and does not end before it, both ends included, the size
-- is the number of its bytes and the start is the number of the bytes before it, except for a part of
-- one byte: that one is refused as invalid, and both are 0.
decoded_range :
    (p : PartInfo)
    → pos 1 ≤ℤ p.begin
    → p.begin ≤ℤ p.end
    → IsInt64 p.begin
    → IsInt64 p.end
    → (decoded_size p ≡ (if eqb_ℤ p.begin p.end then pos 0 else p.end -ℤ p.begin +ℤ pos 1))
      × (decoded_start p ≡ (if eqb_ℤ p.begin p.end then pos 0 else p.begin -ℤ pos 1))
unfolding decoded_size decoded_start
decoded_range p h k f g = ground arith
