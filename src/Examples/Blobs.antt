-- ===== src/Examples/Blobs.antt =====
-- An index of two attributes with no bins in its body, opened.
use bit_lsm.Base.{◌≡◌, ◌↔◌, refl, false, List, [], ◌∷◌}
use bit_lsm.Bytes.{Bytes}
use bit_lsm.Memory.{of_le_bytes, read}
use bit_lsm.Schema.{IndexType, equality, range}
use bit_lsm.Factory.{new_reader, opened, refused, mode_of, read_types, same_types}
use bit_lsm.Factory.Accepted.{IsReadable, new_reader_iff}

abbrev types : List IndexType
types = range ∷ equality ∷ []

abbrev blob : Bytes
blob = 2 ∷ 0 ∷ 0 ∷ 0 ∷ 1 ∷ 0 ∷ 0 ∷ 0 ∷ 0 ∷ 0 ∷ 8 ∷ 0 ∷ 0 ∷ 0 ∷ 117 ∷ 177 ∷ 177 ∷ 90 ∷ []

opens : new_reader types false blob ≡ opened (mode_of false) types
unfolding new_reader read_types same_types of_le_bytes read
opens = refl

refuses_other_schema : new_reader (equality ∷ []) false blob ≡ refused
unfolding new_reader read_types same_types of_le_bytes read
refuses_other_schema = refl

new_reader_iff_example :
    (new_reader types false blob ≡ opened (mode_of false) types) ↔ IsReadable types types blob
new_reader_iff_example = new_reader_iff types types false blob
