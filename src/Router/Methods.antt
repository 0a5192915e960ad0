-- ===== src/Router/Methods.antt =====
-- src/httprouter.cc: `method_from_string`, whose default is GET.
use harmony_http.Prelude.{Bytes, codes, if◌then◌else◌}
use harmony_http.Header.{streq_l}
use harmony_http.Router.{Method, get, post, put, head, patch, delete, options}

unfoldable pub method_from_string : Bytes → Method
method_from_string str =
    if streq_l str (codes "GET")
    then get
    else if streq_l str (codes "POST")
    then post
    else if streq_l str (codes "PUT")
    then put
    else if streq_l str (codes "HEAD")
    then head
    else if streq_l str (codes "PATCH")
    then patch
    else if streq_l str (codes "DELETE")
    then delete
    else if streq_l str (codes "OPTIONS")
    then options
    else get
