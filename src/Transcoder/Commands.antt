-- ===== src/Transcoder/Commands.antt =====
-- The commands of internal/service/media_transcoder.go: what they are called with, and the errors
-- that they end in.
use Prim.Native.String.{String}
use api_calixio.Prelude.{
  ℕ, Bool, false, ◌||◌, none, some, List, [], ◌∷◌, ◌++◌, map, leb, if◌then◌else◌, ◌*◌,
}
use api_calixio.Text.{Text, codes, is_empty, trim_space}
use api_calixio.Text.Decimal.{contains, itoa}
use api_calixio.Integer.{ℤ, pos, negsuc}
use api_calixio.External.{External}
use api_calixio.Machine.{Machine}
use api_calixio.Exec.{
  Exec, Error, external, context_done_after, command_failed, command_killed, pure, raise, call,
  observe, ◌>>=◌,
}
use api_calixio.Storage.Objects.{StorageService}
use api_calixio.Transcoder.Tail.{TailBuffer, new_tail, write_all}
use api_calixio.Upload.{lower}

-- The fields that the methods read; the rows, the queue and the logger are elsewhere.
pub record TranscoderService : Type 0 where
  pub storage : StorageService
  pub ffmpeg_path : Text
  pub ffprobe_path : Text
  pub work_dir : Text
  pub segment_duration : ℤ
  pub queue_size : ℤ
  pub job_timeout : ℤ

pub record HlsEncodingProfile : Type 0 where
  pub name : Text
  pub preset : Text
  pub crf : ℤ
  pub maxrate : Text
  pub bufsize : Text
  pub audio_bitr : Text
  pub threads : ℤ

abbrev pub at_least : ℤ → ℕ → Bool
at_least (pos n) b = leb b n
at_least (negsuc n) b = false

unfoldable pub select_hls_encoding_profile : ℤ → HlsEncodingProfile
select_hls_encoding_profile duration =
    if at_least duration (90 * 60)
    then record {
      name = codes "long-form-safe";
      preset = codes "superfast";
      crf = pos 23;
      maxrate = codes "3500k";
      bufsize = codes "7000k";
      audio_bitr = codes "96k";
      threads = pos 2;
    }
    else record {
      name = codes "default";
      preset = codes "veryfast";
      crf = pos 21;
      maxrate = codes "5000k";
      bufsize = codes "10000k";
      audio_bitr = codes "128k";
      threads = pos 0;
    }

abbrev words : List String → List Text
words = map codes

-- The arguments of ffmpeg, in the order of the source.
unfoldable pub hls_args : ℤ → Text → Text → Text → HlsEncodingProfile → List Text
unfolding itoa
hls_args segment_duration src manifest pattern p =
    words ("-y" ∷ "-hide_banner" ∷ "-nostats" ∷ "-loglevel" ∷ "warning" ∷ "-i" ∷ [])
    ++ (src ∷ [])
    ++ words ("-map" ∷ "0:v:0" ∷ "-map" ∷ "0:a:0?" ∷ "-c:v" ∷ "libx264" ∷ "-preset" ∷ [])
    ++ (p.preset ∷ [])
    ++ words ("-profile:v" ∷ "main" ∷ "-level" ∷ "4.0" ∷ "-pix_fmt" ∷ "yuv420p" ∷ "-crf" ∷ [])
    ++ (itoa p.crf ∷ codes "-maxrate" ∷ p.maxrate ∷ codes "-bufsize" ∷ p.bufsize ∷ [])
    ++ (codes "-threads" ∷ itoa p.threads ∷ codes "-c:a" ∷ codes "aac" ∷ codes "-b:a" ∷ [])
    ++ (p.audio_bitr ∷ [])
    ++ words ("-ac" ∷ "2" ∷ "-f" ∷ "hls" ∷ "-hls_time" ∷ [])
    ++ (itoa segment_duration ∷ [])
    ++ words ("-hls_playlist_type" ∷ "vod" ∷ "-hls_flags" ∷ "independent_segments" ∷ [])
    ++ (codes "-hls_segment_filename" ∷ pattern ∷ manifest ∷ [])

abbrev pub preview_args : Text → Text → List Text
preview_args src preview =
    words ("-y" ∷ "-hide_banner" ∷ "-nostats" ∷ "-loglevel" ∷ "warning" ∷ "-ss" ∷ [])
    ++ (codes "00:00:01" ∷ codes "-i" ∷ src ∷ codes "-frames:v" ∷ codes "1" ∷ [])
    ++ (codes "-vf" ∷ codes "scale=640:-2" ∷ preview ∷ [])

abbrev pub probe_args : Text → List Text
probe_args src =
    words ("-v" ∷ "error" ∷ "-show_entries" ∷ "format=duration" ∷ "-of" ∷ [])
    ++ (codes "default=noprint_wrappers=1:nokey=1" ∷ src ∷ [])

-- An error and what the process wrote; the words in front of them are left out.
unfoldable pub format_ffmpeg_error : Bool → ℕ → Text → Error
format_ffmpeg_error killed n stderr =
    if killed then command_killed stderr else command_failed n stderr

module _ (ext : External) (m : Machine ext.X) where
  open ext use {X, to_lower}
  open m use {done, sleep, is_context_error, is_enospc, message, run, decode_utf8}

  -- `String` of the buffer
  unfoldable pub tail_text : TailBuffer → Text
  unfolding trim_space
  tail_text b = trim_space (decode_utf8 b.buf)

  abbrev mentions_no_space : Text → Bool
  mentions_no_space t = contains (lower to_lower t) (codes "no space left on device")

  -- Do the words stand in `err.Error()`? Of the messages of the program itself none contains them;
  -- the names of directories and objects that some of them quote are taken not to.
  abbrev says_no_space : Error → Bool
  says_no_space (external n) = mentions_no_space (message n)
  says_no_space (command_failed n t) = mentions_no_space (message n) || mentions_no_space t
  says_no_space (command_killed t) = mentions_no_space t
  says_no_space (context_done_after e) = says_no_space e
  says_no_space _ = false

  -- `errors.Is(err, syscall.ENOSPC)`: the error behind a context that is done is only quoted.
  abbrev is_errno_no_space : Error → Bool
  is_errno_no_space (external n) = is_enospc n
  is_errno_no_space (command_failed n t) = is_enospc n
  is_errno_no_space _ = false

  -- `isNoSpaceErr`
  unfoldable pub is_no_space : Error → Bool
  unfolding contains
  is_no_space e = is_errno_no_space e || says_no_space e

  -- `errors.Is(err, ctx.Err())`
  unfoldable pub is_context_failure : Error → Bool
  is_context_failure (external n) = is_context_error n
  is_context_failure (command_failed n t) = is_context_error n
  is_context_failure _ = false

  module _ (s : TranscoderService) where
    -- A run of ffmpeg whose standard error is kept up to so many bytes.
    unfoldable pub run_ffmpeg : List Text → ℕ → Exec X (Unit {0})
    run_ffmpeg args max = do
      r ← observe (run s.ffmpeg_path args)
      elim r.error [
        | none ↦ pure tt
        | some n ↦
            raise (format_ffmpeg_error r.killed n (tail_text (write_all (new_tail max) r.stderr)))
      ]

    unfoldable pub run_ffmpeg_hls : Text → Text → Text → ℤ → Exec X (Unit {0})
    run_ffmpeg_hls src manifest pattern duration =
        run_ffmpeg
          (hls_args s.segment_duration src manifest pattern (select_hls_encoding_profile duration))
          65536

    unfoldable pub probe_duration_sec : Text → Exec X ℤ
    probe_duration_sec src = do
      r ← observe (run s.ffprobe_path (probe_args src))
      let trimmed = trim_space (decode_utf8 r.combined)
      elim r.error [
        | some n ↦ raise (command_failed n trimmed)
        | none ↦ if is_empty trimmed then pure (pos 0) else do
          d ← call (λ x. (m.parse_float trimmed, x))
          if m.float_at_most_zero d then pure (pos 0) else pure (m.round d)
      ]
