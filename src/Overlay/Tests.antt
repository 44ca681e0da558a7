-- ===== src/Overlay/Tests.antt =====
-- A committed file of four bytes behind a hub that answers one byte at a time, and its overlays.
use storhub.Prelude.{
  ℕ, ◌+◌, ◌-◌, ◌≤◌, ◌<◌, false, [], ◌∷◌, none, some, length, min, max, ◌≡◌, refl, arith, inl,
}
use storhub.Ranges.{plus}
use storhub.Ranges.Cover.{covers}
use storhub.LocalFile.{File, byte_at, slice, truncate}
use storhub.Overlay.{Overlay, Hub, ok, temp_or_new, set_size, read_into, ◌>>=◌}
use storhub.Overlay.View.{view, Serves, IsOver, IsSound}
use storhub.Overlay.Read.{read_into_lem}
use storhub.Overlay.Resize.{Resized, set_size_lem, regrow_shows_base}
use storhub.Overlay.Bounded.{coalesce_dirty}
use storhub.Overlay.Bounded.Laws.{coalesce_dirty_lem, Kept}
use storhub.Overlay.Write.{write, write_offset}
use storhub.Overlay.Write.Laws.{write_lem, after_write}

abbrev pub four_bytes : File
four_bytes = record { size = 4; byte = λ x. 65 + x }

abbrev pub one_byte_hub : Hub
one_byte_hub offset len = some (slice (byte_at four_bytes) offset 1)

pub one_byte_hub-Serves : Serves one_byte_hub four_bytes
one_byte_hub-Serves = record { answer = λ offset len pos inside. (0, omega arith, refl) }

abbrev opened : Overlay
opened = record {
  temp = none;
  base_temp = none;
  poisoned = false;
  base_size = 4;
  logical_size = 4;
  dirty = [];
  temp_authoritative = false;
}

opened-IsSound : IsSound opened
unfolding covers temp_or_new truncate byte_at
opened-IsSound = record {
  sorted = tt;
  below = λ x h. ground (arith, h);
  temp_fits = omega arith;
  full = λ h x l c. ground (arith, h);
  holes = λ x c l. ground arith;
}

opened-IsOver : IsOver four_bytes opened
opened-IsOver = record { canonical = tt; base_is = refl; snapshot = tt }

write_lem_example :
    (w' : Overlay) × (write one_byte_hub 2 false (7 ∷ 8 ∷ []) 6 opened ≡ ok w')
    × IsSound w'
    × IsOver four_bytes w'
    × (length w'.dirty ≤ 1024)
    × (w'.logical_size ≡ max 4 (write_offset false 6 opened + 2))
    × ((x : ℕ)
        → x < w'.logical_size
        → view four_bytes w' x
          ≡ after_write (7 ∷ 8 ∷ []) (write_offset false 6 opened) 4 (view four_bytes opened) x)
write_lem_example =
    write_lem one_byte_hub four_bytes 2 false (7 ∷ 8 ∷ []) 6 opened one_byte_hub-Serves
      (omega arith) refl opened-IsSound opened-IsOver

read_into_lem_example :
    read_into one_byte_hub opened 1 9
    ≡ ok (slice (view four_bytes opened) 1 (min 9 (opened.logical_size - 1)))
read_into_lem_example =
    read_into_lem one_byte_hub four_bytes one_byte_hub-Serves opened 1 9 opened-IsOver

coalesce_dirty_lem_example :
    (w' : Overlay) × (coalesce_dirty one_byte_hub 2 opened ≡ ok w') × Kept four_bytes opened w'
coalesce_dirty_lem_example =
    coalesce_dirty_lem one_byte_hub four_bytes one_byte_hub-Serves 2 (omega arith) opened
      opened-IsSound opened-IsOver

set_size_lem_example :
    (w' : Overlay) × (set_size 2 (plus 9) opened ≡ ok w') × Resized four_bytes 9 opened w'
set_size_lem_example =
    set_size_lem four_bytes 2 9 opened (omega arith) refl opened-IsSound opened-IsOver (inl refl)

regrow_shows_base_example :
    (w' : Overlay) × ((set_size 2 (plus 0) opened >>= set_size 2 (plus 3)) ≡ ok w')
    × (w'.dirty ≡ [])
    × (w'.logical_size ≡ 3)
    × ((x : ℕ) → x < 3 → x < 4 → view four_bytes w' x ≡ byte_at four_bytes x)
regrow_shows_base_example = regrow_shows_base four_bytes 2 3 opened refl (omega arith)
