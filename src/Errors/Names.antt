-- ===== src/Errors/Names.antt =====
-- ename.c.inc: the names of the error numbers.
use Prim.Native.String.{String}
use tlpi_practice.Common.{ℕ, List, [], ◌∷◌}

abbrev pub ename : List String
ename =
    "" ∷ "EPERM" ∷ "ENOENT" ∷ "ESRCH" ∷ "EINTR" ∷ "EIO" ∷ "ENXIO" ∷ "E2BIG" ∷ "ENOEXEC" ∷ "EBADF"
    ∷ "ECHILD" ∷ "EAGAIN/EWOULDBLOCK" ∷ "ENOMEM" ∷ "EACCES" ∷ "EFAULT" ∷ "ENOTBLK" ∷ "EBUSY"
    ∷ "EEXIST" ∷ "EXDEV" ∷ "ENODEV" ∷ "ENOTDIR" ∷ "EISDIR" ∷ "EINVAL" ∷ "ENFILE" ∷ "EMFILE"
    ∷ "ENOTTY" ∷ "ETXTBSY" ∷ "EFBIG" ∷ "ENOSPC" ∷ "ESPIPE" ∷ "EROFS" ∷ "EMLINK" ∷ "EPIPE" ∷ "EDOM"
    ∷ "ERANGE" ∷ "EDEADLK/EDEADLOCK" ∷ "ENAMETOOLONG" ∷ "ENOLCK" ∷ "ENOSYS" ∷ "ENOTEMPTY" ∷ "ELOOP"
    ∷ "" ∷ "ENOMSG" ∷ "EIDRM" ∷ "ECHRNG" ∷ "EL2NSYNC" ∷ "EL3HLT" ∷ "EL3RST" ∷ "ELNRNG" ∷ "EUNATCH"
    ∷ "ENOCSI" ∷ "EL2HLT" ∷ "EBADE" ∷ "EBADR" ∷ "EXFULL" ∷ "ENOANO" ∷ "EBADRQC" ∷ "EBADSLT" ∷ ""
    ∷ "EBFONT" ∷ "ENOSTR" ∷ "ENODATA" ∷ "ETIME" ∷ "ENOSR" ∷ "ENONET" ∷ "ENOPKG" ∷ "EREMOTE"
    ∷ "ENOLINK" ∷ "EADV" ∷ "ESRMNT" ∷ "ECOMM" ∷ "EPROTO" ∷ "EMULTIHOP" ∷ "EDOTDOT" ∷ "EBADMSG"
    ∷ "EOVERFLOW" ∷ "ENOTUNIQ" ∷ "EBADFD" ∷ "EREMCHG" ∷ "ELIBACC" ∷ "ELIBBAD" ∷ "ELIBSCN"
    ∷ "ELIBMAX" ∷ "ELIBEXEC" ∷ "EILSEQ" ∷ "ERESTART" ∷ "ESTRPIPE" ∷ "EUSERS" ∷ "ENOTSOCK"
    ∷ "EDESTADDRREQ" ∷ "EMSGSIZE" ∷ "EPROTOTYPE" ∷ "ENOPROTOOPT" ∷ "EPROTONOSUPPORT"
    ∷ "ESOCKTNOSUPPORT" ∷ "EOPNOTSUPP/ENOTSUP" ∷ "EPFNOSUPPORT" ∷ "EAFNOSUPPORT" ∷ "EADDRINUSE"
    ∷ "EADDRNOTAVAIL" ∷ "ENETDOWN" ∷ "ENETUNREACH" ∷ "ENETRESET" ∷ "ECONNABORTED" ∷ "ECONNRESET"
    ∷ "ENOBUFS" ∷ "EISCONN" ∷ "ENOTCONN" ∷ "ESHUTDOWN" ∷ "ETOOMANYREFS" ∷ "ETIMEDOUT"
    ∷ "ECONNREFUSED" ∷ "EHOSTDOWN" ∷ "EHOSTUNREACH" ∷ "EALREADY" ∷ "EINPROGRESS" ∷ "ESTALE"
    ∷ "EUCLEAN" ∷ "ENOTNAM" ∷ "ENAVAIL" ∷ "EISNAM" ∷ "EREMOTEIO" ∷ "EDQUOT" ∷ "ENOMEDIUM"
    ∷ "EMEDIUMTYPE" ∷ "ECANCELED" ∷ "ENOKEY" ∷ "EKEYEXPIRED" ∷ "EKEYREVOKED" ∷ "EKEYREJECTED"
    ∷ "EOWNERDEAD" ∷ "ENOTRECOVERABLE" ∷ "ERFKILL" ∷ "EHWPOISON" ∷ []

abbrev pub max_ename : ℕ
max_ename = 133
