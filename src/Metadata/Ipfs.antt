-- ===== src/Metadata/Ipfs.antt =====
-- GetFile of ton-metadata-fetcher/ipfs.go. Go slices a string by its bytes and panics past its end;
-- a panic is `none`. The path and the files of IPFS are parameters.
use ton_indexer.Prelude.{
  ℕ, String, suc, zero, ◌+◌, Option, none, some, Result, ok, err, ◌≡◌, refl, if◌then◌else◌, ltb,
}
use mathlib.Core.Option.{map as map_option}
use Prim.Native.Char.{code}
use ton_indexer.Prelude.Text.{has_prefix, concat}

unfoldable pub max_ipfs_filesize : ℕ
max_ipfs_filesize = 1048576

-- the bytes of a character in UTF-8
char_size : ℕ → ℕ
char_size c = if ltb c 128 then 1 else if ltb c 2048 then 2 else if ltb c 65536 then 3 else 4

-- len(s)
unfoldable pub byte_length : String → ℕ
unfolding char_size
byte_length String.[] = 0
byte_length (String.◌∷◌ c s) = char_size (code c) + byte_length s

-- s[n:], for n characters of one byte each
unfoldable pub drop_text : ℕ → String → String
drop_text zero s = s
drop_text (suc n) String.[] = String.[]
drop_text (suc n) (String.◌∷◌ c s) = drop_text n s

unfoldable pub prepared_id : String → Option (Result String String)
unfolding byte_length has_prefix drop_text concat
prepared_id id =
    if ltb (byte_length id) 7
    then none
    else some (
        if has_prefix id "ipfs://"
        then ok (concat "/ipfs/" (drop_text 7 id))
        else if has_prefix id "/ipfs/"
        then ok id
        else err "invalid ipfs url")

-- What api.Unixfs().Get returns: a file with its size and content, as far as they can be read, or
-- another node.
pub data Node : Type 0 where
  file : Result String ℕ → Result String String → Node
  other_node : Node

unfoldable pub read_node : Node → Result String String
read_node other_node = err "not a file"
read_node (file (err e) content) = err e
read_node (file (ok size) content) =
    if ltb max_ipfs_filesize size then err "file is too big" else content

abbrev pub and_then : {A B : Type 0} → Result String A → (A → Result String B) → Result String B
and_then (err e) f = err e
and_then (ok a) f = f a

module _ (new_path : String → Result String String) (get_node : String → Result String Node) where
  unfoldable pub get_file : String → Option (Result String String)
  unfolding prepared_id read_node
  get_file id =
      map_option
        (λ prepared.
          and_then prepared
            (λ p. and_then (new_path p) (λ path. and_then (get_node path) read_node)))
        (prepared_id id)

short_test : prepared_id "ipfs:a" ≡ none
unfolding prepared_id
short_test = refl

prepared_test : prepared_id "ipfs://QmA/1" ≡ some (ok "/ipfs/QmA/1")
unfolding prepared_id
prepared_test = refl
