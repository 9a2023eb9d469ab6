-- ===== src/Tests/Volumes.antt =====
-- A file in two volumes of an archive, from their segments to its spans
-- (internal/database/content_repository.go).
use drakkar.Prelude.{
  ℕ, ◌≤◌, ◌≡◌, refl, subst, ap, ◌∙◌, Bool, some, List, [], ◌∷◌, if◌then◌else◌, arith,
}
use mathlib.Core.Option.{some-injective}
use drakkar.Prelude.Int.{pos, add64, sub64, times64}
use drakkar.Prelude.Bytes.{codes, bytes_eq}
use drakkar.Prelude.Dict.{lookup}
use drakkar.Prelude.Text.{trim_space, trim_left, trim_right, keep_left, to_lower}
use drakkar.Stream.RangeMap.{SegmentSpan}
use drakkar.Stream.RangeMap.Layout.{Layout}
use drakkar.Database.StoredRar.{
  StoredRarRangeSource, StoredRarNzbSource, StoredRarVolumeMeta, Sources, range_less, bytes_ltb,
  volume_source, build_stored_rar_spans, stored_rar_source_size, same_path, volumes_from,
  continuation_offset, volume_range, reconstruct_loop, reconstruct_stored_rar_ranges,
}
use drakkar.Database.StoredRar.Layout.{
  IsReadable, IsItem, lengths, IsOrdered, build_stored_rar_spans-Layout,
}
use drakkar.Database.StoredRar.Partition.{IsPartition, reconstruct_stored_rar_ranges-IsPartition}

-- A stable sort.
put : {A : Type 0} → (A → A → Bool) → A → List A → List A
put less x [] = x ∷ []
put less x (y ∷ ys) = if less y x then y ∷ put less x ys else x ∷ y ∷ ys

sort : {A : Type 0} → (A → A → Bool) → List A → List A
unfolding put
sort less [] = []
sort less (x ∷ xs) = put less x (sort less xs)

sort-IsOrdered :
    (less : SegmentSpan → SegmentSpan → Bool) (ss : List SegmentSpan)
    → IsOrdered less ss
    → sort less ss ≡ ss
unfolding sort put
sort-IsOrdered less [] h = refl
sort-IsOrdered less (s ∷ []) h = refl
sort-IsOrdered less (s ∷ s' ∷ ss) (l, h) =
    let first : put less s (s' ∷ ss) ≡ s ∷ s' ∷ ss = rw (put, l) refl in
    ap (λ xs. put less s xs) (sort-IsOrdered less (s' ∷ ss) h) ∙ first

abbrev source : StoredRarNzbSource
source = record {
  message_ids = codes "a" ∷ codes "b" ∷ [];
  decoded_segment_size = pos 10;
  last_decoded_size = pos 4;
  file_size_bytes = pos 14;
}

abbrev next_source : StoredRarNzbSource
next_source = record source { message_ids = codes "c" ∷ []; last_decoded_size = pos 10 }

abbrev sources : Sources
sources = (codes "x.rar", source) ∷ (codes "x.r00", next_source) ∷ []

abbrev first_range : StoredRarRangeSource
first_range = record {
  volume_path = codes "X.rar";
  entry_offset = pos 0;
  archive_offset = pos 3;
  length_bytes = pos 11;
}

abbrev next_range : StoredRarRangeSource
next_range = record {
  volume_path = codes "X.r00 ";
  entry_offset = pos 11;
  archive_offset = pos 2;
  length_bytes = pos 5;
}

abbrev ranges : List StoredRarRangeSource
ranges = next_range ∷ first_range ∷ []

in_order : sort range_less ranges ≡ first_range ∷ next_range ∷ []
unfolding sort put range_less bytes_eq bytes_ltb
in_order = refl

first_range-IsItem : IsItem sources first_range
unfolding volume_source lookup trim_space trim_left trim_right keep_left to_lower bytes_eq
first_range-IsItem s u =
    subst (λ t. IsReadable t first_range) (some-injective source s u)
      (record {
        size = 10;
        offset = 3;
        width = 11;
        sized = refl;
        begins = refl;
        wide = refl;
        size_positive = omega arith;
        width_positive = omega arith;
        last = omega arith;
        ids = omega arith;
        fits = omega arith;
        fits_total = omega arith;
        inside = omega arith;
      })

next_range-IsItem : IsItem sources next_range
unfolding volume_source lookup trim_space trim_left trim_right keep_left to_lower bytes_eq
next_range-IsItem s u =
    subst (λ t. IsReadable t next_range) (some-injective next_source s u)
      (record {
        size = 10;
        offset = 2;
        width = 5;
        sized = refl;
        begins = refl;
        wide = refl;
        size_positive = omega arith;
        width_positive = omega arith;
        last = omega arith;
        ids = omega arith;
        fits = omega arith;
        fits_total = omega arith;
        inside = omega arith;
      })

build_stored_rar_spans-Layout_example :
    (n : ℕ) × Layout (pos 0) (build_stored_rar_spans sort sort sources ranges) (pos n)
    × (n ≤ lengths (sort range_less ranges))
unfolding sort put range_less bytes_eq bytes_ltb
build_stored_rar_spans-Layout_example =
    build_stored_rar_spans-Layout sort sort sources ranges sort-IsOrdered
      (first_range-IsItem, (next_range-IsItem, tt)) (omega arith)

abbrev volumes : List StoredRarVolumeMeta
volumes =
    record { path = codes "X.rar"; volume_index = pos 0 }
    ∷ record { path = codes "X.r00 "; volume_index = pos 1 }
    ∷ []

rebuilt :
    reconstruct_stored_rar_ranges sources volumes
      (codes "x.rar")
      (pos 3)
      ((codes "x.r00", pos 2) ∷ [])
      (pos 16)
    ≡ some (first_range ∷ next_range ∷ [])
unfolding reconstruct_stored_rar_ranges reconstruct_loop volumes_from same_path volume_source
    continuation_offset volume_range stored_rar_source_size lookup trim_space trim_left trim_right
    keep_left to_lower bytes_eq add64 sub64 times64
rebuilt = refl

reconstruct_stored_rar_ranges-IsPartition_example : IsPartition 0 (first_range ∷ next_range ∷ []) 16
unfolding stored_rar_source_size add64 times64
reconstruct_stored_rar_ranges-IsPartition_example =
    reconstruct_stored_rar_ranges-IsPartition sources volumes (codes "x.rar") (pos 3)
      ((codes "x.r00", pos 2) ∷ []) 16 (first_range ∷ next_range ∷ [])
      ((omega arith, omega arith), ((omega arith, omega arith), tt)) (omega arith) rebuilt
