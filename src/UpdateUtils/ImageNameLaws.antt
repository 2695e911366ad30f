-- ===== src/UpdateUtils/ImageNameLaws.antt =====
-- Image references are taken apart as they were put together.
use sagedockhand.Common.{take_append, ◌≡◌, refl, false, ◌∷◌, ◌++◌}
use sagedockhand.Common.Text.{Text, codes, includes, contains, last_index_of-append, drop-suc}
use sagedockhand.UpdateUtils.ImageName.{parse_image_name_and_tag}

-- A repository and a tag, joined by a colon, are found again, whether or not the repository names a
-- registry with a port: the tag has neither colon nor slash, and the reference is not one by digest.
pub parse_image_name_and_tag-append :
    (repository tag : Text)
    → includes (repository ++ b':' ∷ tag) (codes "@sha256:") ≡ false
    → contains b':' tag ≡ false
    → contains b'/' tag ≡ false
    → parse_image_name_and_tag (repository ++ b':' ∷ tag) ≡ (repository, tag)
unfolding parse_image_name_and_tag
parse_image_name_and_tag-append repository tag by_tag h k =
    rw
      (
        by_tag,
        last_index_of-append b':' repository tag h,
        drop-suc b':' repository tag,
        k,
        take_append repository (b':' ∷ tag),
      )
      refl
