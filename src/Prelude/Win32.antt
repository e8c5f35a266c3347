-- ===== src/Prelude/Win32.antt =====
-- The status codes that the modelled functions return. The numbers behind the names are the
-- Windows SDK's; the code compares them only for success and failure.
use mathlib.Core.Bool.{Bool, true, false}

pub data Win32Error : Type 0 where
  error_success error_invalid_parameter error_insufficient_buffer error_buffer_overflow
        error_arithmetic_overflow error_invalid_data error_already_exists error_not_enough_memory
        error_server_disabled error_create_failed error_server_shutdown_in_progress
        error_app_init_failure error_handle_eof error_connection_aborted
        error_winhttp_invalid_server_response wsaeconnreset error_invalid_handle :
      Win32Error

-- `HRESULT_FROM_WIN32(e)` is a failure for each of the errors above but `error_success`.
pub data HResult : Type 0 where
  s_ok e_invalidarg e_outofmemory e_unexpected : HResult
  hresult_from_win32 : Win32Error → HResult
  -- A Win32 code that the source uses as an HRESULT without the macro: it is positive, a success.
  win32_code : Win32Error → HResult

abbrev pub failed : HResult → Bool
failed s_ok = false
failed (hresult_from_win32 Win32Error.error_success) = false
failed (win32_code e) = false
failed _ = true

-- A slim reader-writer lock as one thread sees it that runs alone: a second acquisition waits forever.
pub data SrwLock : Type 0 where
  unlocked shared exclusive : SrwLock
