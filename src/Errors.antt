-- ===== src/Errors.antt =====
-- error_functions.c: the functions that print an error and end the process.
mod Names
mod Bounded
mod Endings
mod Tests
use Prim.Native.String.{String}
use tlpi_practice.Common.{
  ℕ, zero, suc, ◌+◌, ◌-◌, Bool, true, false, ◌&&◌, Option, none, some, List, [], ◌∷◌, ◌++◌, ltb,
  leb, get_or, take, if◌then◌else◌,
}
use tlpi_practice.Common.Disk.{Bytes}
use tlpi_practice.Common.Text.{text}
use tlpi_practice.Errors.Names.{ename, max_ename}

-- What a function does with the standard streams.
pub data Call : Type 0 where
  flush_stdout flush_stderr : Call
  put_stderr : Bytes → Call

-- How it ends: by `abort`, `exit` or `_exit` with EXIT_FAILURE, or by returning with `errno`.
pub data Ending : Type 0 where
  aborts exits exits_at_once : Ending
  returns : ℕ → Ending

-- `getenv ("EF_DUMPCORE")` as an argument.
unfoldable pub terminate : Option Bytes → Bool → Ending
terminate (some (b ∷ bs)) use_exit3 = aborts
terminate (some []) use_exit3 = if use_exit3 then exits else exits_at_once
terminate none use_exit3 = if use_exit3 then exits else exits_at_once

abbrev pub buf_size : ℕ
buf_size = 500

-- What `snprintf` leaves in a buffer of `size` bytes, before the NUL.
abbrev pub snprintf : ℕ → Bytes → Bytes
snprintf size s = take (size - 1) s

-- An error number is an `int`; a negative one is `none` here.
abbrev pub error_name : Option ℕ → Bytes
error_name none = text "?UNKNOWN?"
error_name (some err) =
    if ltb 0 err && leb err max_ename then text (get_or ename err "") else text "?UNKNOWN?"

-- `strerror` of the C library is an argument, and `msg` is what the format and its arguments give.
module _ (strerror : Option ℕ → Bytes) where
  unfoldable pub err_text : Bool → Option ℕ → Bytes
  err_text use_err err =
      if use_err
      then snprintf buf_size
          (text " [" ++ (error_name err ++ (text " " ++ (strerror err ++ text "]"))))
      else snprintf buf_size (text ":")

  unfoldable pub message : Bool → Option ℕ → Bytes → Bytes
  unfolding err_text
  message use_err err msg =
      let user_msg = snprintf buf_size msg in
      snprintf buf_size
        (text "ERROR" ++ (err_text use_err err ++ (text " " ++ (user_msg ++ text "\n"))))

  unfoldable pub output_error : Bool → Option ℕ → Bool → Bytes → List Call
  unfolding message
  output_error use_err err flushes msg =
      (if flushes then flush_stdout ∷ [] else [])
      ++ (put_stderr (message use_err err msg) ∷ flush_stderr ∷ [])

  -- `errno` is put back as it was, whatever the calls in between make of it.
  unfoldable pub err_msg : ℕ → Bytes → List Call × Ending
  unfolding output_error
  err_msg errno msg = (output_error true (some errno) true msg, returns errno)

  -- `errExit`
  unfoldable pub err_exit_flushed : Option Bytes → ℕ → Bytes → List Call × Ending
  unfolding output_error terminate
  err_exit_flushed env errno msg = (output_error true (some errno) true msg, terminate env true)

  -- `err_exit`
  unfoldable pub err_exit : Option Bytes → ℕ → Bytes → List Call × Ending
  unfolding output_error terminate
  err_exit env errno msg = (output_error true (some errno) false msg, terminate env false)

  unfoldable pub err_exit_en : Option Bytes → Option ℕ → Bytes → List Call × Ending
  unfolding output_error terminate
  err_exit_en env errnum msg = (output_error true errnum true msg, terminate env true)

  unfoldable pub fatal : Option Bytes → Bytes → List Call × Ending
  unfolding output_error terminate
  fatal env msg = (output_error false (some 0) true msg, terminate env true)

unfoldable pub usage_err : Bytes → List Call × Ending
usage_err msg =
    (flush_stdout ∷ put_stderr (text "Usage: ") ∷ put_stderr msg ∷ flush_stderr ∷ [], exits)

unfoldable pub cmd_line_err : Bytes → List Call × Ending
cmd_line_err msg = (
  flush_stdout
      ∷ put_stderr (text "Command-line usage error: ")
      ∷ put_stderr msg
      ∷ flush_stderr
      ∷ [],
  exits,
)
