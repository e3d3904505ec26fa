-- ===== src/Metadata/Images.antt =====
-- The links to the proxy of images: ton-metadata-fetcher/images.go. Texts are taken as bytes of
-- UTF-8. HMAC-SHA256 is a parameter.
use ton_indexer.Prelude.{
  ℕ, String, ◌+◌, ◌*◌, ◌/◌, ◌%◌, Bool, List, [], ◌∷◌, ◌++◌, ◌≡◌, refl, if◌then◌else◌, ltb,
}
use Prim.Native.Char.{code}
use ton_indexer.Prelude.Format.{symbol_at}
use ton_indexer.Prelude.Text.{has_prefix, concat}
use ton_indexer.Metadata.Ipfs.{drop_text}

-- The bytes of a character in UTF-8.
utf8 : ℕ → List ℕ
utf8 c =
    if ltb c 128
    then c ∷ []
    else if ltb c 2048
    then (192 + c / 64) ∷ (128 + c % 64) ∷ []
    else if ltb c 65536
    then (224 + c / 4096) ∷ (128 + c / 64 % 64) ∷ (128 + c % 64) ∷ []
    else (240 + c / 262144) ∷ (128 + c / 4096 % 64) ∷ (128 + c / 64 % 64) ∷ (128 + c % 64) ∷ []

-- []byte(s)
unfoldable pub bytes_of : String → List ℕ
unfolding utf8
bytes_of String.[] = []
bytes_of (String.◌∷◌ c s) = utf8 (code c) ++ bytes_of s

abbrev url_alphabet : String
url_alphabet = "ABCDEFGHIJKLMNOPQRSTUVWXYZabcdefghijklmnopqrstuvwxyz0123456789-_"

symbol : ℕ → String → String
symbol n rest = symbol_at url_alphabet n rest

-- base64.RawURLEncoding.EncodeToString
unfoldable pub raw_url_encode : List ℕ → String
unfolding symbol
raw_url_encode [] = ""
raw_url_encode (a ∷ []) = symbol (a / 4) (symbol (a % 4 * 16) "")
raw_url_encode (a ∷ b ∷ []) = symbol (a / 4) (symbol (a % 4 * 16 + b / 16) (symbol (b % 16 * 4) ""))
raw_url_encode (a ∷ b ∷ c ∷ rest) = symbol (a / 4) (
    symbol (a % 4 * 16 + b / 16)
      (symbol (b % 16 * 4 + c / 64) (symbol (c % 64) (raw_url_encode rest))))

pub record ImgProxyUrlBuilder : Type 0 where
  pub key : List ℕ
  pub salt : List ℕ
  pub ipfs_resolve_base_url : String

unfoldable pub is_ipfs : String → Bool
unfolding has_prefix
is_ipfs path = has_prefix path "ipfs://"

-- the key and the message to their code
module _ (hmac_sha256 : List ℕ → List ℕ → List ℕ) (b : ImgProxyUrlBuilder) where
  resolved : String → String
  unfolding is_ipfs concat drop_text
  resolved src =
      if is_ipfs src then concat b.ipfs_resolve_base_url (concat "/" (drop_text 7 src)) else src

  image_path : String → String → String
  unfolding resolved raw_url_encode bytes_of concat
  image_path src preset =
      concat "/pr:" (concat preset (concat "/" (raw_url_encode (bytes_of (resolved src)))))

  unfoldable pub build_url : String → String → String
  unfolding image_path
  build_url src preset =
      let path = image_path src preset in
      let signature = raw_url_encode (hmac_sha256 b.key (b.salt ++ bytes_of path)) in
      concat "/" (concat signature path)

encode_test : raw_url_encode (bytes_of "a/ö>") ≡ "YS_Dtj4"
unfolding raw_url_encode bytes_of
encode_test = refl
