-- ===== src/Cli.antt =====
-- barc-cli/src/main.rs: the flags and the sub-commands `cat` and `cp`.
pub mod Flags
pub mod Window
use body_image.Common.{
  ℕ, zero, suc, ◌+◌, ltb, u64, if◌then◌else◌, Bool, true, false, List, [], ◌∷◌, ◌++◌, replicate,
  ◌-◌, length, ascii, Option, none, some, Done, Outcome, ok, err, panic, hang,
}
use body_image.Common.Exec.{Exec, ◌>>=◌, ◌>>◌, pure, lift, convert}
use body_image.Io.{Bytes, IoError, Write, File}
use body_image.Http.{Http}
use body_image.Storage.{Storage}
use body_image.Image.Tune.{default_tunables}
use body_image.Barc.{BarcError, Record}
use body_image.Barc.Codec.{Codecs}
use body_image.Barc.Compress.{Strategy}
use body_image.Barc.Format.{format_hex, same_bytes}
use body_image.Barc.Write.{write_headers, write_body, write}
use body_image.Barc.Read.{offset, seek, read}
use body_image.Cli.Flags.{CliError, barc, io, cl_error, StartPos, offset_pos, index_pos, Parts}

-- `i < s` of the loops, for `StartPos::Index(s)`.
abbrev pub skips : StartPos → ℕ → Bool
skips (index_pos s) i = ltb i s
skips (offset_pos o) i = false

-- The loops of `cp` and `cat`, over what they do with a record. The fuel counts the records read;
-- `i`, a usize of 64 bits, wraps around.
module _ {R W Rec : Type 0} (next : Exec R CliError (Option Rec)) (start : StartPos)
    (count : ℕ) where
  module _ (emit : Rec → Exec W CliError Done) where
    abbrev pub cp_next :
        (ℕ → Exec W CliError Done) → ℕ → Outcome CliError (Option Rec) → Exec W CliError Done
    cp_next go i (ok none) = pure tt
    cp_next go i (ok (some rec)) =
        if skips start i
        then go (u64 (i + 1))
        else if ltb count (u64 (i + 1))
        then pure tt
        else (emit rec >> go (u64 (i + 1)))
    cp_next go i (err e) = lift (err e)
    cp_next go i panic = lift panic
    cp_next go i hang = lift hang

    unfoldable pub cp_loop : ℕ → ℕ → R → Exec W CliError Done
    cp_loop zero i r w = (hang, w)
    cp_loop (suc fuel) i r w = let (o, r') = next r in cp_next (λ j. cp_loop fuel j r') i o w

  -- `at` is the offset that is printed, `position` the one where the reader stands.
  module _ (position : R → ℕ) (emit : ℕ → Rec → Exec W CliError Done) where
    abbrev pub cat_next :
        (ℕ → ℕ → Exec W CliError Done)
        → ℕ
        → ℕ
        → ℕ
        → Outcome CliError (Option Rec)
        → Exec W CliError Done
    cat_next go i at here (ok none) = pure tt
    cat_next go i at here (ok (some rec)) =
        if skips start i
        then go (u64 (i + 1)) at
        else if ltb count (u64 (i + 1))
        then pure tt
        else (emit at rec >> go (u64 (i + 1)) here)
    cat_next go i at here (err e) = lift (err e)
    cat_next go i at here panic = lift panic
    cat_next go i at here hang = lift hang

    unfoldable pub cat_loop : ℕ → ℕ → ℕ → R → Exec W CliError Done
    cat_loop zero i at r w = (hang, w)
    cat_loop (suc fuel) i at r w =
        let (o, r') = next r in cat_next (λ j a. cat_loop fuel j a r') i at (position r') o w

module _ ⦃st : Storage⦄ where
  open st use {ReadPos}

  -- Opening a file of the file system, for reading and for writing.
  pub record Files : Type 0 where
    pub reader : Bytes → Outcome IoError ReadPos
    pub writer : Bytes → Outcome IoError File

  abbrev pub seek_start_pos : StartPos → Exec ReadPos CliError Done
  seek_start_pos (offset_pos o) = convert (λ e. barc e) (seek o)
  seek_start_pos (index_pos s) = pure tt

  module _ ⦃ht : Http⦄ ⦃cd : Codecs⦄ (temp_dir : Bytes) (fuel : ℕ) (files : Files) where
    open ht use {entries}

    abbrev pub next_record : Exec ReadPos CliError (Option Record)
    next_record = convert (λ e. barc e) (read (default_tunables temp_dir) fuel)

    abbrev pub cp_from :
        ℕ
        → StartPos
        → ℕ
        → Strategy
        → Outcome CliError Done × ReadPos
        → Outcome IoError File
        → Outcome CliError Done × Option File
    cp_from records start count strategy (ok _, rp) (ok file) =
        let (r, file') =
          cp_loop next_record start count
            (λ rec. convert (λ e. barc e) (write fuel strategy rec) >>= λ _. pure tt) records 0 rp
            file in
        (r, some file')
    cp_from records start count strategy (ok _, rp) (err e) = (err (io e), none)
    cp_from records start count strategy (ok _, rp) panic = (panic, none)
    cp_from records start count strategy (ok _, rp) hang = (hang, none)
    cp_from records start count strategy (err e, rp) out = (err e, none)
    cp_from records start count strategy (panic, rp) out = (panic, none)
    cp_from records start count strategy (hang, rp) out = (hang, none)

    abbrev pub cp_open :
        ℕ
        → StartPos
        → ℕ
        → Strategy
        → Outcome IoError ReadPos
        → Outcome IoError File
        → Outcome CliError Done × Option File
    cp_open records start count strategy (ok rp) out =
        cp_from records start count strategy (seek_start_pos start rp) out
    cp_open records start count strategy (err e) out = (err (io e), none)
    cp_open records start count strategy panic out = (panic, none)
    cp_open records start count strategy hang out = (hang, none)

    -- `cp`, with the output file as it leaves it.
    unfoldable pub cp :
        ℕ → Bytes → Bytes → StartPos → ℕ → Strategy → Outcome CliError Done × Option File
    unfolding cp_loop seek
    cp records barc_in barc_out start count strategy =
        if same_bytes barc_in barc_out
        then (err cl_error, none)
        else cp_open records start count strategy (files.reader barc_in) (files.writer barc_out)

    module _ {W : Type 0} (out : Write W) where
      open out use {write_all}

      -- `println!`: a failure panics.
      abbrev pub printed : Outcome IoError Done × W → Outcome CliError Done × W
      printed (ok _, w) = (ok tt, w)
      printed (err e, w) = (panic, w)
      printed (panic, w) = (panic, w)
      printed (hang, w) = (hang, w)

      -- The path filled to 38 with dashes, the offset as `0x` and at least ten digits.
      abbrev pub title : Bytes → ℕ → Bytes
      title path at =
          ascii "====== file "
          ++ (path
              ++ (replicate (38 - length path) b'-'
                  ++ (ascii " offset 0x" ++ (format_hex 10 at ++ (ascii " ======" ++ (10 ∷ []))))))

      abbrev pub part : Bool → Exec W BarcError ℕ → Exec W CliError Done
      part shown call = if shown then (convert (λ e. barc e) call >>= λ _. pure tt) else pure tt

      unfoldable pub cat_record : Bytes → Parts → ℕ → Record → Exec W CliError Done
      cat_record path parts at rec = do
        λ w. printed (write_all (title path at) w)
        part parts.meta (write_headers out true (entries rec.meta))
        part parts.req_head (write_headers out true (entries rec.req_headers))
        part parts.req_body (write_body out fuel true rec.req_body)
        part parts.res_head (write_headers out true (entries rec.res_headers))
        part parts.res_body (write_body out fuel true rec.res_body)

      abbrev pub cat_from :
          ℕ → Bytes → StartPos → ℕ → Parts → Outcome CliError Done × ReadPos → Exec W CliError Done
      cat_from records path start count parts (ok _, rp) =
          cat_loop next_record start count offset (cat_record path parts) records 0 (offset rp) rp
      cat_from records path start count parts (err e, rp) = lift (err e)
      cat_from records path start count parts (panic, rp) = lift panic
      cat_from records path start count parts (hang, rp) = lift hang

      abbrev pub cat_open :
          ℕ → Bytes → StartPos → ℕ → Parts → Outcome IoError ReadPos → Exec W CliError Done
      cat_open records path start count parts (ok rp) =
          cat_from records path start count parts (seek_start_pos start rp)
      cat_open records path start count parts (err e) = lift (err (io e))
      cat_open records path start count parts panic = lift panic
      cat_open records path start count parts hang = lift hang

      unfoldable pub cat : ℕ → Bytes → StartPos → ℕ → Parts → Exec W CliError Done
      unfolding cat_loop seek cat_record
      cat records path start count parts =
          cat_open records path start count parts (files.reader path)
