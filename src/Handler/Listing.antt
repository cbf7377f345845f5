-- ===== src/Handler/Listing.antt =====
-- The handler with the listing of directories in its place.
use static_web_server.Common.{ℕ, Str, List, Result}
use static_web_server.Http.{Request, Response}
use static_web_server.Fs.Meta.{FileMetadata}
use static_web_server.Env.{Env}
use static_web_server.Env.Options.{RequestHandlerOpts}
use static_web_server.DirectoryListing.Entries.{Dirs}
use static_web_server.DirectoryListing.Page.{Writer}
use static_web_server.DirectoryListing.Index.{auto_index_of}
use static_web_server.Handler.{handle_opts, handle_request}

module _ (E : Env) (W : Writer) (form_parse : Str → List (Str × Str)) (D : Dirs E.http.Time) where
  -- `directory_listing::auto_index` with the options of the handler
  unfoldable pub listing :
      RequestHandlerOpts E → Request E.http → FileMetadata E.http.Time → Result ℕ (Response E.http)
  listing opts req f =
      auto_index_of E.http W form_parse D (handle_opts E opts req) opts.dir_listing_order
        opts.dir_listing_format f

  -- `RequestHandler::handle`
  unfoldable pub serve : RequestHandlerOpts E → Request E.http → Result Str (Response E.http)
  serve opts req = handle_request E (listing opts) opts req
