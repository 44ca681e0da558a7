-- ===== src/Playlist/Tests.antt =====
-- A file of two chunks, edited in the middle and cut down.
use storhub.Prelude.{◌+◌, ◌*◌, List, [], ◌∷◌, ◌≡◌, arith}
use storhub.Playlist.{ChunkInfo, splice_edit, reference_file_range}
use storhub.Playlist.Content.{Assets, content}
use storhub.Playlist.Splice.{edited, splice_edit-content}
use storhub.Playlist.Slices.{within, reference_file_range-content}

abbrev numbered : Assets
numbered asset i = 1000 * asset + i

abbrev two_chunks : List ChunkInfo
two_chunks =
    record { asset = 1; offset = 0; size = 8; asset_offset = 0 }
    ∷ record { asset = 2; offset = 8; size = 8; asset_offset = 3 }
    ∷ []

abbrev one_insert : List ChunkInfo
one_insert = record { asset = 3; offset = 5; size = 2; asset_offset = 0 } ∷ []

splice_edit-content_example :
    content numbered (splice_edit two_chunks 5 4 2 one_insert) 8
    ≡ edited 5 4 2 (content numbered one_insert) (content numbered two_chunks) 8
splice_edit-content_example =
    splice_edit-content numbered two_chunks 5 4 2 one_insert 8 ((omega arith, omega arith), tt)

reference_file_range-content_example :
    content numbered (reference_file_range two_chunks 3 11) 9
    ≡ within 3 11 (content numbered two_chunks) 9
reference_file_range-content_example = reference_file_range-content numbered two_chunks 3 11 9

abbrev swapped : List ChunkInfo
swapped =
    record { asset = 2; offset = 8; size = 8; asset_offset = 3 }
    ∷ record { asset = 1; offset = 0; size = 8; asset_offset = 0 }
    ∷ []
