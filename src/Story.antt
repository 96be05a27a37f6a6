-- ===== src/Story.antt =====
-- lib/story/ip-metadata.ts: the metadata documents of an IP asset and of its token.
use wtr.Common.{String, ◌==◌, if◌then◌else◌}
use wtr.Common.Value.{Value, Fields, num, str, arr, obj, nil, item, end, field}

pub record IpMetadata : Type 0 where
  pub title : String
  pub description : String
  pub media_type : String
  pub content_sha256 : String
  pub encrypted_media_url : String
  pub creator_anon_id : String
  pub license_preset : String
  pub created_at : String

abbrev pub no_train_robot_terms : Value
no_train_robot_terms = obj (field "userAgent" (str "*") (field "allow" (str "") end))

unfoldable pub build_ip_metadata_document : IpMetadata → Fields
build_ip_metadata_document params = field "title" (str params.title) (
    field "description" (str params.description) (
      field "mediaType" (str params.media_type) (
        field "mediaHash" (str params.content_sha256) (
          field "mediaUrl" (str params.encrypted_media_url) (
            field "createdAt" (str params.created_at) (
              field "creators"
                (arr (
                  item
                    (obj (
                      field "name" (str params.creator_anon_id)
                        (field "contributionPercent" (num 100) end)))
                    nil))
                (field "licensePreset" (str params.license_preset) (
                  if params.license_preset == "WTR-NO-TRAIN"
                  then field "robotTerms" no_train_robot_terms end
                  else end))))))))

abbrev attribute : String → String → Value
attribute trait_type value =
    obj (field "trait_type" (str trait_type) (field "value" (str value) end))

-- title, description, image, preset and content hash
unfoldable pub build_nft_metadata_document : String → String → String → String → String → Fields
build_nft_metadata_document title description image_url preset content_sha256 =
    field "name" (str title) (
      field "description" (str description) (
        field "image" (str image_url) (
          field "attributes"
            (arr (
              item (attribute "License" preset)
                (item (attribute "Content SHA-256" content_sha256) nil)))
            end)))
