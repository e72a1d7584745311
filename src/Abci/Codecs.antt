-- ===== src/Abci/Codecs.antt =====
-- abci/strategies/codec/codec.go: the codecs of vote extensions and of commit infos, which are
-- marshalled and may be compressed. Marshalling and the two compression formats are parameters.
use orynx.Prelude.{
  ◌≡◌, ◌≢◌, refl, sym, ap, [], ◌∷◌, none, Text, Result, ok, ◌>>=◌, length, ◌==◌, if◌then◌else◌,
  arith, inl, inr, Result-cases,
}
use orynx.Abci.{Codec, AbciError, Bytes, content, ExtendedCommitInfo, OracleVoteExtension}
use orynx.Abci.RoundTrip.{IsFaithful}

-- `Compressor`
pub record Compressor : Type 0 where
  pub compress : Text → Result AbciError Text
  pub decompress : Text → Result AbciError Bytes

-- What compress/zlib and zstd offer: a writer's result, and a reader of everything.
pub record Zip : Type 0 where
  pub write_all : Text → Result AbciError Text
  pub read_all : Text → Result AbciError Bytes

-- `ZLibCompressor`
abbrev pub zlib_compressor : Zip → Compressor
zlib_compressor z = record {
  compress = z.write_all;
  decompress = λ bz. if length bz == 0 then ok none else z.read_all bz;
}

-- `ZStdCompressor`
abbrev pub zstd_compressor : Zip → Compressor
zstd_compressor z = record { compress = z.write_all; decompress = z.read_all }

-- `DefaultVoteExtensionCodec`
abbrev pub default_vote_extension_codec : Codec OracleVoteExtension → Codec OracleVoteExtension
default_vote_extension_codec proto = proto

abbrev pub empty_commit_info : ExtendedCommitInfo
empty_commit_info = record { round = 0; votes = [] }

-- `DefaultExtendedCommitCodec`
abbrev pub default_extended_commit_codec : Codec ExtendedCommitInfo → Codec ExtendedCommitInfo
default_extended_commit_codec proto = record {
  encode = proto.encode;
  decode = λ bz. if length bz == 0 then ok empty_commit_info else proto.decode bz;
}

module _ {A : Type 0} (codec : Codec A) (compressor : Compressor) where
  -- `CompressionVoteExtensionCodec.Encode` and `CompressionExtendedCommitCodec.Encode`
  unfoldable pub compressed_encode : A → Result AbciError Text
  compressed_encode a = do bz ← codec.encode a; compressor.compress bz

  -- `CompressionVoteExtensionCodec.Decode` and `CompressionExtendedCommitCodec.Decode`
  unfoldable pub compressed_decode : Text → Result AbciError A
  compressed_decode bz = do bz' ← compressor.decompress bz; codec.decode (content bz')

  -- `CompressionVoteExtensionCodec` and `CompressionExtendedCommitCodec`
  abbrev pub compression_codec : Codec A
  compression_codec = record { encode = compressed_encode; decode = compressed_decode }

abbrev pub IsInverse : {A : Type 0} → Codec A → Type 0
IsInverse {A} codec = (a : A) (bz : Text) → codec.encode a ≡ ok bz → codec.decode bz ≡ ok a

-- Only the empty commit info has the empty encoding.
abbrev pub IsCommitCodec : Codec ExtendedCommitInfo → Type 0
IsCommitCodec proto =
    IsInverse proto
    × ((info : ExtendedCommitInfo) → proto.encode info ≡ ok [] → info ≡ empty_commit_info)

-- Decompression undoes compression, and nothing is compressed to the empty string.
abbrev pub IsCompression : (Text → Result AbciError Text) → (Text → Result AbciError Bytes) → Type 0
IsCompression compress decompress =
    (bz out : Text)
    → compress bz ≡ ok out
    → (back : Bytes) × (decompress out ≡ ok back) × (content back ≡ bz) × (out ≢ [])

zlib_compressor-IsCompression :
    (z : Zip)
    → IsCompression z.write_all z.read_all
    → IsCompression (zlib_compressor z).compress (zlib_compressor z).decompress
zlib_compressor-IsCompression z h bz [] e = absurd ((h bz [] e).3 refl)
zlib_compressor-IsCompression z h bz (x ∷ out) e =
    let (back, d, q, n) = h bz (x ∷ out) e in (back, ground (arith, d), q, n)

default_extended_commit_codec-IsInverse :
    (proto : Codec ExtendedCommitInfo)
    → IsCommitCodec proto
    → IsInverse (default_extended_commit_codec proto)
default_extended_commit_codec-IsInverse proto h info [] e = ap ok (sym (h.1 info e))
default_extended_commit_codec-IsInverse proto h info (x ∷ bz) e =
    ground (arith, h.0 info (x ∷ bz) e)

module _ {A : Type 0} (codec : Codec A) (compressor : Compressor) where
  through :
      IsCompression compressor.compress compressor.decompress
      → (a : A) {out : Text} → compressed_encode codec compressor a ≡ ok out
      → (bz : Text) × (codec.encode a ≡ ok bz)
        × (back : Bytes) × (compressor.decompress out ≡ ok back)
        × (content back ≡ bz)
        × (out ≢ [])
  unfolding compressed_encode
  through z a {out} e = elim (Result-cases (codec.encode a)) [
    | inr (x, d) ↦ absurd (ground arith)
    | inl (bz, d) ↦ let (back, q, r, n) = z bz out (ground arith) in (bz, d, back, q, r, n)
  ]

  -- A codec that is inverted stays so under compression, and then has no empty encoding: what it encodes
  -- is decoded to itself.
  pub compression_codec-IsFaithful :
      IsInverse codec
      → IsCompression compressor.compress compressor.decompress
      → IsFaithful (compression_codec codec compressor)
  unfolding compressed_decode
  compression_codec-IsFaithful h z = record {
    decode-encode =
        λ a {bz} e. let (bz', p, back, q, r, n) = through z a e in ground (arith, q, h a bz' p, r);
    not_empty = λ a {bz} e. let (bz', p, back, q, r, n) = through z a e in n;
  }

-- The codecs of an application (docs/developers/integration.mdx), zstd over the default commit codec and
-- zlib over the default vote-extension codec, are faithful: if marshalling is inverted, a commit info
-- other than the empty one is not marshalled to the empty string, and both compressions are inverted and
-- never give the empty string.
pub application_codecs-IsFaithful :
    (commits : Codec ExtendedCommitInfo) (extensions : Codec OracleVoteExtension) (zlib zstd : Zip)
    → IsCommitCodec commits
    → IsInverse extensions
    → IsCompression zlib.write_all zlib.read_all
    → IsCompression zstd.write_all zstd.read_all
    → IsFaithful (compression_codec (default_extended_commit_codec commits) (zstd_compressor zstd))
      × IsFaithful
          (compression_codec (default_vote_extension_codec extensions) (zlib_compressor zlib))
application_codecs-IsFaithful commits extensions zlib zstd h h' z z' = (
  compression_codec-IsFaithful (default_extended_commit_codec commits) (zstd_compressor zstd)
      (default_extended_commit_codec-IsInverse commits h) z',
  compression_codec-IsFaithful (default_vote_extension_codec extensions) (zlib_compressor zlib) h'
      (zlib_compressor-IsCompression zlib z),
)
