-- ===== src/Ec2/Catalog.antt =====
-- internal/ec2/catalog.go: the images, by their AMI id.
use twister_aws.Base.{
  Text, Map, codes, Option, none, some, List, [], ◌∷◌, ◌==◌, lookup, is_nil, if◌then◌else◌,
}
use twister_aws.Base.Files.{File, missing, broken, holds}

pub record AmiEntry : Type 0 where
  pub docker_image : Text
  pub command : List Text
  pub default_user : Text

-- A missing file is the empty catalog; `none` for a file that cannot be read.
unfoldable pub read_catalog : File (Map AmiEntry) → Option (Map AmiEntry)
read_catalog missing = some []
read_catalog broken = none
read_catalog (holds amis) = some amis

abbrev pub sleep_forever : List Text
sleep_forever = codes "/bin/sleep" ∷ codes "infinity" ∷ []

unfoldable pub resolve : Map AmiEntry → Text → Option AmiEntry
resolve amis image_id = elim (lookup image_id amis) [
  | none ↦ none
  | some ent ↦
      if ent.docker_image == []
      then none
      else some (record {
        docker_image = ent.docker_image;
        command = if is_nil ent.command then sleep_forever else ent.command;
        default_user = if ent.default_user == [] then codes "root" else ent.default_user;
      })
]
